-- ===== src/Rewrite/Sweep.antt =====
-- src/main.c: the linear sweep of the code, and what the loop makes of it.
use vpoline.Common.{
  ℕ, zero, suc, ◌+◌, ◌-◌, ◌^◌, ◌≤◌, ◌<◌, ◌≡◌, refl, arith, leb, ◌==◌, if◌then◌else◌, true, false,
  List, [], ◌∷◌, none, some, u64, sub64, ◌∙◌, inl, inr, ◌⊎◌, Bool-cases, Option-cases,
}
use vpoline.Common.Exit.{ok}
use vpoline.Memory.{Memory, store}
use vpoline.Memory.Laws.{store_outside}
use vpoline.Rewrite.{
  CsInsn, Capstone, InterceptDisasmContext, intercept_disasm_next_instruction, rewrite_loop,
  jalr_gp,
}

-- What the loop relies on: `cs_disasm_iter` reads only the bytes that it is given, the
-- instruction that it finds is not empty and lies in them, and `ecall` has four bytes.
pub record IsCapstone (cs : Capstone) : Type 0 where
  pub local :
      (m m' : Memory) (a size : ℕ)
      → ((x : ℕ) → a ≤ x → x < a + size → m x ≡ m' x)
      → cs.cs_disasm_iter m a size ≡ cs.cs_disasm_iter m' a size
  pub fits :
      (m : Memory) (a size : ℕ) (i : CsInsn)
      → cs.cs_disasm_iter m a size ≡ some i
      → (1 ≤ i.size) × (i.size ≤ size)
  pub ecall_size :
      (m : Memory) (a size : ℕ) (i : CsInsn)
      → cs.cs_disasm_iter m a size ≡ some i
      → i.is_ecall ≡ true
      → i.size ≡ 4

-- The linear sweep of an unchanged memory up to `last`, from an address on: the addresses at
-- which it finds an `ecall`. A byte at which no instruction starts is passed over.
pub data Sweeps (cs : Capstone) (m : Memory) (last : ℕ) : ℕ → List ℕ → Type 0 where
  finished : (a : ℕ) → last < a → Sweeps cs m last a []
  skipped :
      (a : ℕ) (l : List ℕ)
      → a ≤ last
      → cs.cs_disasm_iter m a (last + 1 - a) ≡ none
      → Sweeps cs m last (a + 1) l
      → Sweeps cs m last a l
  passed :
      (a : ℕ) (i : CsInsn) (l : List ℕ)
      → a ≤ last
      → cs.cs_disasm_iter m a (last + 1 - a) ≡ some i
      → i.is_ecall ≡ false
      → Sweeps cs m last (a + i.size) l
      → Sweeps cs m last a l
  found :
      (a : ℕ) (i : CsInsn) (l : List ℕ)
      → a ≤ last
      → cs.cs_disasm_iter m a (last + 1 - a) ≡ some i
      → i.is_ecall ≡ true
      → Sweeps cs m last (a + i.size) l
      → Sweeps cs m last a (a ∷ l)

-- `jalr gp, gp, 0` at each of the addresses.
unfoldable pub patch : List ℕ → Memory → Memory
patch [] m = m
patch (a ∷ l) m = patch l (store 4 m a jalr_gp)

le_or_lt : (a b : ℕ) → (a ≤ b) ⊎ (b < a)
le_or_lt a b = ground arith

module _ (cs : Capstone) (is : IsCapstone cs) (context : InterceptDisasmContext)
    (room : context.end_address + 1 < 2 ^ 64) (m : Memory) where
  abbrev last : ℕ
  last = context.end_address

  -- The sweep that the loop from `a` on, in a changed memory, performs.
  abbrev Result : (fuel a : ℕ) → Memory → Type 0
  Result fuel a m' =
      (l : List ℕ) × Sweeps cs m last a l
      × (rewrite_loop cs context fuel a m' ≡ some (ok (patch l m')))

  -- The decoder sees the same as in the unchanged memory.
  pub same_insn :
      (a : ℕ) (m' : Memory)
      → a ≤ last
      → ((x : ℕ) → a ≤ x → m' x ≡ m x)
      → cs.cs_disasm_iter m' a (u64 (sub64 last a + 1)) ≡ cs.cs_disasm_iter m a (last + 1 - a)
  same_insn a m' le agree =
      let size : u64 (sub64 last a + 1) ≡ last + 1 - a = omega (arith, room) in
      rw size (is.local m' m a (last + 1 - a) (λ x p q. agree x p))

  at_none :
      (n a : ℕ) (m' : Memory)
      → a ≤ last
      → cs.cs_disasm_iter m' a (u64 (sub64 last a + 1)) ≡ none
      → rewrite_loop cs context (suc n) a m' ≡ rewrite_loop cs context n (a + 1) m'
  unfolding rewrite_loop intercept_disasm_next_instruction
  at_none n a m' le e =
      let here : leb a last ≡ true = ground arith in
      let next : u64 (a + 1) ≡ a + 1 = omega (arith, room) in
      rw (rewrite_loop, here, intercept_disasm_next_instruction, e, next) refl

  at_some :
      (n a : ℕ) (m' : Memory) (i : CsInsn)
      → a ≤ last
      → cs.cs_disasm_iter m' a (u64 (sub64 last a + 1)) ≡ some i
      → 1 ≤ i.size
      → a + i.size ≤ last + 1
      → rewrite_loop cs context (suc n) a m'
        ≡ rewrite_loop cs context n (a + i.size) (if i.is_ecall then store 4 m' a jalr_gp else m')
  unfolding rewrite_loop intercept_disasm_next_instruction
  at_some n a m' i le e pos fit =
      let here : leb a last ≡ true = ground arith in
      let full : (i.size == 0) ≡ false = ground arith in
      let next : u64 (a + i.size) ≡ a + i.size = omega (arith, room) in
      rw (rewrite_loop, here, intercept_disasm_next_instruction, e, full, next, full) refl

  at_end : (n a : ℕ) (m' : Memory) → last < a → rewrite_loop cs context n a m' ≡ some (ok m')
  unfolding rewrite_loop
  at_end zero a m' past =
      let here : leb a last ≡ false = ground arith in rw (rewrite_loop, here) refl
  at_end (suc n) a m' past =
      let here : leb a last ≡ false = ground arith in rw (rewrite_loop, here) refl

  -- One instruction, before the others.
  after_insn :
      (n a : ℕ) (m' : Memory) (i : CsInsn)
      → a ≤ last
      → cs.cs_disasm_iter m a (last + 1 - a) ≡ some i
      → ((x : ℕ) → a ≤ x → m' x ≡ m x)
      → Result n (a + i.size) (if i.is_ecall then store 4 m' a jalr_gp else m')
      → Result (suc n) a m'
  unfolding patch
  after_insn n a m' i le e agree (l, sweeps, runs) =
      let seen = same_insn a m' le agree ∙ e in
      let (pos, fit) = is.fits m a (last + 1 - a) i e in
      let step = at_some n a m' i le seen pos (omega arith) ∙ runs in
      elim (Bool-cases i.is_ecall) [
        | inl is_call ↦ (a ∷ l, found a i l le e is_call sweeps, step ∙ rw is_call refl)
        | inr is_other ↦ (l, passed a i l le e is_other sweeps, step ∙ rw is_other refl)
      ]

  agrees_behind :
      (a : ℕ) (m' : Memory) (i : CsInsn)
      → cs.cs_disasm_iter m a (last + 1 - a) ≡ some i
      → ((x : ℕ) → a ≤ x → m' x ≡ m x)
      → (x : ℕ) → a + i.size ≤ x
      → (if i.is_ecall then store 4 m' a jalr_gp else m') x ≡ m x
  agrees_behind a m' i e agree x p = elim (Bool-cases i.is_ecall) [
    | inl is_call ↦
        let four : i.size ≡ 4 = is.ecall_size m a (last + 1 - a) i e is_call in
        rw is_call (store_outside 4 m' a jalr_gp x (inr (omega arith)) ∙ agree x (omega arith))
    | inr is_other ↦ rw is_other (agree x (omega arith))
  ]

  pub loop_sweeps :
      (n a : ℕ) (m' : Memory) → last + 1 ≤ a + n → ((x : ℕ) → a ≤ x → m' x ≡ m x) → Result n a m'
  unfolding patch
  loop_sweeps zero a m' enough agree =
      ([], finished a (omega arith), at_end zero a m' (omega arith))
  loop_sweeps (suc n) a m' enough agree = elim (le_or_lt a last) [
    | inr past ↦ ([], finished a past, at_end (suc n) a m' past)
    | inl le ↦ elim (Option-cases (cs.cs_disasm_iter m a (last + 1 - a))) [
      | inl e ↦
          let (l, sweeps, runs) =
            loop_sweeps n (a + 1) m' (omega arith) (λ x p. agree x (omega arith)) in
          (l, skipped a l le e sweeps, at_none n a m' le (same_insn a m' le agree ∙ e) ∙ runs)
      | inr (i, e) ↦
          let (pos, fit) = is.fits m a (last + 1 - a) i e in
          after_insn n a m' i le e agree (
            loop_sweeps n (a + i.size) (if i.is_ecall then store 4 m' a jalr_gp else m')
              (omega arith) (agrees_behind a m' i e agree))
    ]
  ]
