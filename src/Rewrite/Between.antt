-- ===== src/Rewrite/Between.antt =====
-- src/main.c: what the rest of the process sees while `disassemble_and_rewrite` is in its loop.
use mathlib.Core.List.{Memᴰ}
use vpoline.Common.{
  ℕ, zero, suc, ◌+◌, ◌^◌, ◌≤◌, ◌<◌, ◌≡◌, refl, arith, false, leb, List, [], ◌∷◌, ◌++◌, some, ◌∙◌,
  sym, ap, inl, inr, ◌⊎◌, Bool-cases,
}
use vpoline.Common.Exit.{ok}
use vpoline.Memory.{Memory, load}
use vpoline.Memory.Laws.{load_ext}
use vpoline.Rewrite.{
  Capstone, InterceptDisasmContext, intercept_disasm_next_instruction, rewrite_loop,
  rewrite_instruction, jalr_gp,
}
use vpoline.Rewrite.Sweep.{IsCapstone, Sweeps, patch, loop_sweeps}
use vpoline.Rewrite.Patched.{
  Outside, Spread, Sweeps-Spread, patch-Outside, Spread-Mem, Spread-Mem_last, patch-Mem,
}
use vpoline.Rewrite.Status.{Exit-cases, rewrite_loop-over, loop_exit, loop_next}
use vpoline.Rewrite.Moments.{Reaches, Moment, Reaches-Moment}
use Memᴰ.{head, tail}

-- A memory in the middle of the work, against the first one: each `ecall` of the sweep is as it was
-- or is replaced as a whole, and the other bytes are as they were.
pub record Between (cs : Capstone) (m m' : Memory) (code last : ℕ) : Type 0 where
  pub sites : List ℕ
  pub swept : Sweeps cs m last code sites
  pub inside : (a : ℕ) → Memᴰ a sites → (code ≤ a) × (a + 4 ≤ last + 1)
  pub either : (a : ℕ) → Memᴰ a sites → (load 4 m' a ≡ jalr_gp) ⊎ (load 4 m' a ≡ load 4 m a)
  pub others : (x : ℕ) → Outside sites x → m' x ≡ m x

Mem-cases : (l l' : List ℕ) (a : ℕ) → Memᴰ a (l ++ l') → Memᴰ a l ⊎ Memᴰ a l'
Mem-cases [] l' a e = inr e
Mem-cases (b ∷ l) l' a (head e) = inl (head e)
Mem-cases (b ∷ l) l' a (tail e) = elim (Mem-cases l l' a e) [ inl i ↦ inl (tail i) | inr i ↦ inr i ]

Mem-append : (l l' : List ℕ) (a : ℕ) → Memᴰ a l → Memᴰ a (l ++ l')
Mem-append [] l' a e = elim e [ ]
Mem-append (b ∷ l) l' a (head e) = head e
Mem-append (b ∷ l) l' a (tail e) = tail (Mem-append l l' a e)

Spread-prefix : (low last : ℕ) (l l' : List ℕ) → Spread low last (l ++ l') → Spread low last l
Spread-prefix low last [] l' s = tt
Spread-prefix low last (a ∷ l) l' (p, q, s) = (p, q, Spread-prefix (a + 4) last l l' s)

Spread-suffix :
    (low last : ℕ) (l l' : List ℕ) (a : ℕ) → Spread low last (l ++ l') → Memᴰ a l' → low ≤ a
Spread-suffix low last [] l' a s e = Spread-Mem low last a l' s e
Spread-suffix low last (b ∷ l) l' a (p, q, s) e =
    omega (arith, Spread-suffix (b + 4) last l l' a s e)

-- The sites behind lie behind.
Spread-before :
    (low last : ℕ) (l l' : List ℕ) (c a : ℕ)
    → Spread low last (l ++ l')
    → Memᴰ c l
    → Memᴰ a l'
    → c + 4 ≤ a
Spread-before low last [] l' c a s e i = elim e [ ]
Spread-before low last (b ∷ l) l' c a (p, q, s) (head e) i =
    omega (arith, Spread-suffix (b + 4) last l l' a s i)
Spread-before low last (b ∷ l) l' c a (p, q, s) (tail e) i =
    Spread-before (b + 4) last l l' c a s e i

patch-either :
    (l l' : List ℕ) (m : Memory) (low last a : ℕ)
    → Spread low last (l ++ l')
    → Memᴰ a (l ++ l')
    → (load 4 (patch l m) a ≡ jalr_gp) ⊎ (load 4 (patch l m) a ≡ load 4 m a)
patch-either l l' m low last a s e = elim (Mem-cases l l' a e) [
  | inl i ↦ inl (patch-Mem l m low last a (Spread-prefix low last l l' s) i)
  | inr i ↦ inr (
      load_ext 4 (patch l m) m a (λ x p q.
        patch-Outside l m x (λ c j. inr (omega (arith, Spread-before low last l l' c a s j i)))))
]

module _ (cs : Capstone) (is : IsCapstone cs) (context : InterceptDisasmContext)
    (room : context.end_address + 1 < 2 ^ 64) (m : Memory) (code : ℕ) where
  Moment-Between :
      (sites : List ℕ)
      → Sweeps cs m context.end_address code sites
      → (b : ℕ) (mem : Memory) → Moment cs is context room m code sites b mem
      → Between cs m mem code context.end_address
  Moment-Between sites s b mem x =
      let spread = Sweeps-Spread cs is m context.end_address code sites s in
      let spread' : Spread code context.end_address (x.replaced ++ x.waiting) = rw x.all spread in
      record {
        sites = sites;
        swept = s;
        inside = λ a e. omega (
          arith,
          Spread-Mem code context.end_address a sites spread e,
          Spread-Mem_last code context.end_address a sites spread e,
        );
        either = λ a e.
            rw x.patched
              (patch-either x.replaced x.waiting m code context.end_address a spread' (rw x.all e));
        others = λ y out.
            ap (λ (k : Memory). k y) x.patched
            ∙ patch-Outside x.replaced m y (λ a e.
              let e' : Memᴰ a sites = rw (← x.all) (Mem-append x.replaced x.waiting a e) in
              out a e');
      }

  -- Whatever the number of passes.
  pub Reaches-Between :
      (b : ℕ) (mem : Memory)
      → Reaches cs context code m b mem
      → Between cs m mem code context.end_address
  Reaches-Between b mem r =
      let (sites, swept, _) =
        loop_sweeps cs is context room m (context.end_address + 1) code m (omega arith)
          (λ x p. refl) in
      Moment-Between sites swept b mem
        (Reaches-Moment cs is context room m code sites swept b mem r)

-- The loop goes through these states, and comes to its end in one of them.
pub rewrite_loop-Reaches :
    (cs : Capstone) (context : InterceptDisasmContext) (code : ℕ) (m : Memory) (fuel b : ℕ)
    (mem mem' : Memory)
    → Reaches cs context code m b mem
    → rewrite_loop cs context fuel b mem ≡ some (ok mem')
    → (c : ℕ) × Reaches cs context code m c mem' × (leb c context.end_address ≡ false)
unfolding rewrite_loop
rewrite_loop-Reaches cs context code m zero b mem mem' r e =
    elim (Bool-cases (leb b context.end_address)) [
      | inl more ↦ absurd cc
      | inr over ↦
          let last = rewrite_loop-over cs context zero b mem over in
          let same : mem ≡ mem' = cc in (b, rw (← same) r, over)
    ]
rewrite_loop-Reaches cs context code m (suc fuel) b mem mem' r e =
    elim (Bool-cases (leb b context.end_address)) [
      | inr over ↦
          let last = rewrite_loop-over cs context (suc fuel) b mem over in
          let same : mem ≡ mem' = cc in (b, rw (← same) r, over)
      | inl more ↦ elim (Exit-cases (intercept_disasm_next_instruction cs context mem b)) [
        | inl (status, failed) ↦
            let last = loop_exit cs context fuel b status mem more failed in absurd cc
        | inr (result, found) ↦
            let next = rewrite_instruction b mem result in
            rewrite_loop-Reaches cs context code m fuel next.0 next.1 mem'
              (Reaches.pass b mem result r more found)
              (sym (loop_next cs context fuel b mem result more found) ∙ e)
      ]
    ]
