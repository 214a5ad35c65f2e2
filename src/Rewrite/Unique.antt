-- ===== src/Rewrite/Unique.antt =====
-- The linear sweep of a range is unique.
use vpoline.Common.{ℕ, ◌+◌, ◌-◌, ◌≡◌, refl, arith, true, false, List, ◌∷◌, some, ap, sym, ◌∙◌}
use vpoline.Common.Exit.{some-inj}
use vpoline.Memory.{Memory}
use vpoline.Rewrite.{Capstone, CsInsn}
use vpoline.Rewrite.Sweep.{Sweeps}
use Sweeps.{finished, skipped, passed, found}

module _ (cs : Capstone) (m : Memory) (last : ℕ) where
  -- Two results of the decoder at the same place.
  same_size :
      (a n : ℕ) (i j : CsInsn)
      → cs.cs_disasm_iter m a n ≡ some i
      → cs.cs_disasm_iter m a n ≡ some j
      → i ≡ j
  same_size a n i j e e' = some-inj (sym e ∙ e')

  pub Sweeps-unique :
      (a : ℕ) (l l' : List ℕ) → Sweeps cs m last a l → Sweeps cs m last a l' → l ≡ l'
  Sweeps-unique a _ _ (finished _ past) (finished _ past') = refl
  Sweeps-unique a _ l' (finished _ past) (skipped _ _ le e s) = absurd (omega arith)
  Sweeps-unique a _ l' (finished _ past) (passed _ i _ le e is_other s) = absurd (omega arith)
  Sweeps-unique a _ _ (finished _ past) (found _ i l le e is_call s) = absurd (omega arith)
  Sweeps-unique a l _ (skipped _ _ le e s) (finished _ past) = absurd (omega arith)
  Sweeps-unique a l l' (skipped _ _ le e s) (skipped _ _ le' e' s') =
      Sweeps-unique (a + 1) l l' s s'
  Sweeps-unique a l l' (skipped _ _ le e s) (passed _ i _ le' e' is_other s') = absurd cc
  Sweeps-unique a l _ (skipped _ _ le e s) (found _ i l' le' e' is_call s') = absurd cc
  Sweeps-unique a l _ (passed _ i _ le e is_other s) (finished _ past) = absurd (omega arith)
  Sweeps-unique a l l' (passed _ i _ le e is_other s) (skipped _ _ le' e' s') = absurd cc
  Sweeps-unique a l l' (passed _ i _ le e is_other s) (passed _ j _ le' e' is_other' s') =
      let same = same_size a (last + 1 - a) j i e' e in
      Sweeps-unique (a + i.size) l l' s (rw (← same) s')
  Sweeps-unique a l _ (passed _ i _ le e is_other s) (found _ j l' le' e' is_call s') =
      let same = same_size a (last + 1 - a) i j e e' in
      let other : j.is_ecall ≡ false = rw (← same) is_other in absurd cc
  Sweeps-unique a _ _ (found _ i l le e is_call s) (finished _ past) = absurd (omega arith)
  Sweeps-unique a _ l' (found _ i l le e is_call s) (skipped _ _ le' e' s') = absurd cc
  Sweeps-unique a _ l' (found _ i l le e is_call s) (passed _ j _ le' e' is_other s') =
      let same = same_size a (last + 1 - a) i j e e' in
      let call : j.is_ecall ≡ true = rw (← same) is_call in absurd cc
  Sweeps-unique a _ _ (found _ i l le e is_call s) (found _ j l' le' e' is_call' s') =
      let same = same_size a (last + 1 - a) j i e' e in
      ap (λ t. a ∷ t) (Sweeps-unique (a + i.size) l l' s (rw (← same) s'))
