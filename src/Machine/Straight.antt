-- ===== src/Machine/Straight.antt =====
-- Runs of straight-line code, and one step at its end.
use vpoline.Common.{
  ℕ, suc, ◌+◌, ◌*◌, ◌^◌, ◌<◌, ◌≡◌, refl, arith, Bool, true, false, List, [], ◌∷◌, Option, none,
  some, length, u64, ap, ◌∙◌,
}
use vpoline.Machine.{
  Insn, lui, jal, jalr, ecall, illegal, State, Kernel, decode, apply, go, exec, run,
}

abbrev pub is_straight : Insn → Bool
is_straight (jal rd offset) = false
is_straight (jalr rd base imm) = false
is_straight ecall = false
is_straight illegal = false
is_straight i = true

exec_straight :
    (k : Kernel) (i : Insn) (s : State)
    → is_straight i ≡ true
    → exec k i s ≡ some (go (u64 (s.pc + 4)) (apply i s))
exec_straight k (lui rd imm20) s h = refl
exec_straight k (jal rd offset) s h = cc
exec_straight k (jalr rd base imm) s h = cc
exec_straight k ecall s h = cc
exec_straight k illegal s h = cc
exec_straight k _ s h = refl

-- The effects of a list of instructions, in order.
abbrev pub apply_all : List Insn → State → State
apply_all [] s = s
apply_all (i ∷ is) s = apply_all is (apply i s)

-- The words from `a` on are straight-line code.
abbrev pub Code : (ℕ → ℕ) → ℕ → List Insn → Type 0
Code fetch a [] = Unit
Code fetch a (i ∷ is) = (decode (fetch a) ≡ i) × (is_straight i ≡ true) × Code fetch (a + 4) is

apply-go :
    (i : Insn) (s : State) (a : ℕ) → is_straight i ≡ true → apply i (go a s) ≡ go a (apply i s)
apply-go (lui rd imm20) s a h = refl
apply-go (jal rd offset) s a h = cc
apply-go (jalr rd base imm) s a h = cc
apply-go _ s a h = refl

apply_all-go :
    (fetch : ℕ → ℕ) (is : List Insn) (b : ℕ) (s : State) (a : ℕ)
    → Code fetch b is
    → apply_all is (go a s) ≡ go a (apply_all is s)
apply_all-go fetch [] b s a c = refl
apply_all-go fetch (i ∷ is) b s a c =
    rw (apply-go i s a c.1) (apply_all-go fetch is (b + 4) (apply i s) a c.2)

-- The instructions of the list, and `n` more.
abbrev pub steps : List Insn → ℕ → ℕ
steps [] n = n
steps (i ∷ is) n = suc (steps is n)

-- One step.
pub run_step :
    (k : Kernel) (fetch : ℕ → ℕ) (n : ℕ) (s : State) (i : Insn) {s' : State}
    → decode (fetch s.pc) ≡ i
    → exec k i s ≡ some s'
    → run k fetch (suc n) s ≡ run k fetch n s'
unfolding run
run_step k fetch n s i d e =
    ap (λ (o : Option State). elim o [ none ↦ none | some t ↦ run k fetch n t ])
      (ap (λ j. exec k j s) d ∙ e)

-- Straight-line code has its effects in order, and leaves the program counter behind it.
pub run_straight :
    (k : Kernel) (fetch : ℕ → ℕ) (is : List Insn) (n : ℕ) (s : State)
    → Code fetch s.pc is
    → s.pc + 4 * length is < 2 ^ 64
    → run k fetch (steps is n) s ≡ run k fetch n (go (s.pc + 4 * length is) (apply_all is s))
run_straight k fetch [] n s c h = ap (λ a. run k fetch n (go a s)) (omega arith)
run_straight k fetch (i ∷ is) n s c h =
    let e : u64 (s.pc + 4) ≡ s.pc + 4 = omega arith in
    let a : s.pc + 4 + 4 * length is ≡ s.pc + 4 * suc (length is) = omega arith in
    let one : exec k i s ≡ some (go (s.pc + 4) (apply i s)) =
      exec_straight k i s c.1 ∙ ap (λ t. some (go t (apply i s))) e in
    run_step k fetch (steps is n) s i c.0 one
    ∙ run_straight k fetch is n (go (s.pc + 4) (apply i s)) c.2 (omega arith)
    ∙ rw (apply_all-go fetch is (s.pc + 4) (apply i s) (s.pc + 4) c.2, a) refl
