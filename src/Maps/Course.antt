-- ===== src/Maps/Course.antt =====
-- A run of `rewrite_code` goes through the moments of its work.
use vpoline.Common.{◌≡◌, Bool, List, [], ◌∷◌, some, ◌∙◌, sym, All}
use vpoline.Common.Exit.{ok, ok-inj, some-inj, and_then-ok}
use vpoline.Memory.{Memory}
use vpoline.Rewrite.{Capstone, Mprotect}
use vpoline.Maps.{rewrite_code}
use vpoline.Maps.Print.{Mapping, IsMapping, print_file}
use vpoline.Maps.Line.{rewrite_target}
use vpoline.Maps.File.{rewrite_targets, rewrite_code-print_file}
use vpoline.Maps.Moments.{Moments}

module _ (cs : Capstone) (mprotect : Mprotect → Bool) where
  rewrite_targets-Moments :
      (ms : List Mapping) (mem mem' : Memory)
      → rewrite_targets cs mprotect ms mem ≡ some (ok mem')
      → Moments cs mprotect ms mem mem'
  unfolding rewrite_targets
  rewrite_targets-Moments [] mem mem' e =
      let same : mem ≡ mem' = ok-inj (some-inj e) in rw (← same) (Moments.before [] mem)
  rewrite_targets-Moments (m ∷ ms) mem mem' e =
      let (mem1, first, rest) =
        and_then-ok (rewrite_target cs mprotect m mem) (λ mem'. rewrite_targets cs mprotect ms mem')
          mem' e in
      Moments.behind m ms mem mem1 mem' first (rewrite_targets-Moments ms mem1 mem' rest)

  -- The memory that `rewrite_code` leaves is the last of these moments.
  pub rewrite_code-Moments :
      (ms : List Mapping)
      → All IsMapping ms
      → (mem mem' : Memory) → rewrite_code cs mprotect (some (print_file ms)) mem ≡ some (ok mem')
      → Moments cs mprotect ms mem mem'
  rewrite_code-Moments ms h mem mem' e =
      rewrite_targets-Moments ms mem mem' (sym (rewrite_code-print_file cs mprotect ms h mem) ∙ e)
