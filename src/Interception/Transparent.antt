-- ===== src/Interception/Transparent.antt =====
-- A forwarded call against the `ecall` that it replaces.
use vpoline.Common.{
  ℕ, ◌+◌, ◌-◌, ◌%◌, ◌≤◌, ◌<◌, ◌≡◌, ◌≢◌, refl, arith, Bool, true, ◌==◌, ◌&&◌, ◌||◌, leb, ◌∷◌, ◌∙◌,
  ◌⊎◌, inl, inr, Bool-cases, ==_ne,
}
use vpoline.Memory.{Memory}
use vpoline.Machine.{State, Kernel}
use vpoline.Hook.Lines as Lines
use vpoline.Hook.Elsewhere.{IsSpared}
use vpoline.Interception.Returned.{Called}
use vpoline.Interception.Site.{called, served}

-- The registers of a system call: a0 to a5 and a7.
abbrev pub is_argument : ℕ → Bool
is_argument r = r == 17 || leb 10 r && leb r 15

-- The bytes but those below sp that the frame and the stack of `syscall_hook` may use.
abbrev pub Beyond : (sp depth x : ℕ) → Type 0
Beyond sp depth x = (x + 304 + depth < sp) ⊎ (sp ≤ x)

-- A kernel that takes a system call from the registers of its number and arguments, and reads and
-- writes no byte of the stack below sp.
pub record IsKernel (k : Kernel) (sp depth : ℕ) : Type 0 where
  pub same_result :
      (regs regs' : ℕ → ℕ) (m m' : Memory)
      → ((r : ℕ) → is_argument r ≡ true → regs r ≡ regs' r)
      → ((x : ℕ) → Beyond sp depth x → m x ≡ m' x)
      → k.result regs m ≡ k.result regs' m'
  pub same_memory :
      (regs regs' : ℕ → ℕ) (m m' : Memory)
      → ((r : ℕ) → is_argument r ≡ true → regs r ≡ regs' r)
      → ((x : ℕ) → Beyond sp depth x → m x ≡ m' x)
      → (x : ℕ) → Beyond sp depth x
      → k.memory regs m x ≡ k.memory regs' m' x

-- A `syscall_hook` that, with its sp at `frame`, writes only `depth` bytes of stack.
abbrev pub IsQuiet : (callee : Lines.State → Lines.State) (frame depth : ℕ) → Type 0
IsQuiet callee frame depth =
    (s : Lines.State) (x : ℕ)
    → s.regs 2 ≡ frame
    → (x + depth < frame) ⊎ (frame ≤ x)
    → (callee s).mem x ≡ s.mem x

-- Two states behind a system call of `s` that the program cannot tell apart: the same address, the
-- same registers, the same memory but for the stack below sp, and one call with the same number
-- and arguments.
pub record SameEffect (depth : ℕ) (s u v : State) : Type 0 where
  pub address : u.pc ≡ v.pc
  pub registers : (r : ℕ) → r < 64 → u.regs r ≡ v.regs r
  pub memory : (x : ℕ) → Beyond (s.regs 2) depth x → u.mem x ≡ v.mem x
  pub seen_first : ℕ → ℕ
  pub seen_second : ℕ → ℕ
  pub first_call : u.calls ≡ seen_first ∷ s.calls
  pub second_call : v.calls ≡ seen_second ∷ s.calls
  pub same_call : (r : ℕ) → is_argument r ≡ true → seen_first r ≡ seen_second r

pub SameEffect-refl :
    (k : Kernel) (depth : ℕ) (s : State) → SameEffect depth s (served k s) (served k s)
SameEffect-refl k depth s = record {
  address = refl;
  registers = λ r bound. refl;
  memory = λ x out. refl;
  seen_first = s.regs;
  seen_second = s.regs;
  first_call = refl;
  second_call = refl;
  same_call = λ r is. refl;
}

module _ (k : Kernel) (callee : Lines.State → Lines.State) (Seen : ℕ → Type 0) (depth : ℕ)
    (s u : State) (c : Called k callee Seen (s.regs 3) (called s) u)
    (arguments : (r : ℕ) → is_argument r ≡ true → Seen r) (kernel : IsKernel k (s.regs 2) depth)
    (quiet : IsQuiet callee (s.regs 2 - 304) depth) (stack : 304 ≤ s.regs 2) where
  spared : (x : ℕ) → Beyond (s.regs 2) depth x → IsSpared callee (s.regs 2 - 304) x
  spared x out =
      (ground (arith, out, stack), λ t frame. quiet t x frame (ground (arith, out, stack)))

  same_arguments : (r : ℕ) → is_argument r ≡ true → c.registers r ≡ s.regs r
  same_arguments r is =
      let n3 : r ≢ 3 = ground arith in
      let bound : r < 64 = ground arith in c.sees r bound (arguments r is) ∙ rw (==_ne r 3 n3) refl

  same_memory : (x : ℕ) → Beyond (s.regs 2) depth x → c.memory x ≡ s.mem x
  same_memory x out = c.elsewhere x (spared x out)

  -- A call that the kernel made for the caller has the effect of the `ecall`.
  pub Called-SameEffect : (s.pc + 4) % 2 ≡ 0 → SameEffect depth s u (served k s)
  Called-SameEffect even = record {
    address = c.address ∙ omega (arith, even);
    registers = λ r bound. elim (Bool-cases (r == 10)) [
      | inl e ↦
          let here : r ≡ 10 = ground arith in
          rw here (
            c.result
            ∙ kernel.same_result c.registers s.regs c.memory s.mem same_arguments same_memory)
      | inr n10 ↦ elim (Bool-cases (r == 3)) [
        | inl e ↦ let here : r ≡ 3 = ground arith in rw here c.global
        | inr n3 ↦ rw n10 (c.kept r bound (ground arith) (ground arith) ∙ rw n3 refl)
      ]
    ];
    memory = λ x out.
        rw c.written
          (kernel.same_memory c.registers s.regs c.memory s.mem same_arguments same_memory x out);
    seen_first = c.registers;
    seen_second = s.regs;
    first_call = c.calls;
    second_call = refl;
    same_call = same_arguments;
  }
