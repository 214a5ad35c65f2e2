-- ===== src/Interception/Answered.antt =====
-- A system call on whichever of the three return paths it takes.
use vpoline.Common.{
  ℕ, ◌-◌, ◌/◌, ◌*◌, ◌%◌, ◌^◌, ◌<◌, ◌≡◌, ◌≢◌, arith, ◌==◌, ◌||◌, if◌then◌else◌, Option, some, ◌∙◌,
  ap, ◌⊎◌, inl, inr, Bool-cases,
}
use vpoline.Memory.{Memory}
use vpoline.Machine.{State, Kernel}
use vpoline.Patcher.{trampoline, return_sequence}
use vpoline.Patcher.Words.{Holds}
use vpoline.Hook.Callee.{HookFn, syscall_hook-handled}
use vpoline.Hook.Lines as Lines
use vpoline.Hook.Call.{IsCallee}
use vpoline.Hook.Context.{decision}
use vpoline.Hook.Elsewhere.{IsSpared}
use vpoline.Interception.{hook_state, intercept}
use vpoline.Interception.Returned.{Returned, Called}
use vpoline.Interception.Entered.{Fits}
use vpoline.Interception.Handled.{intercept-decided}
use vpoline.Interception.Forwarded.{KeepsFrame, intercept-forwarded}
use vpoline.Interception.Clone.{intercept-clone}

-- The instructions behind the hook entry.
abbrev pub path_length : Option HookFn → State → ℕ
path_length hook_fn s =
    if (decision hook_fn (hook_state s)).handled == 1
    then 5
    else if s.regs 17 == 220 || s.regs 17 == 435
    then 5
    else 6

-- A byte that neither the hook entry nor the kernel changes.
abbrev pub IsKept : Kernel → (callee : Lines.State → Lines.State) (frame x : ℕ) → Type 0
IsKept k callee frame x =
    IsSpared callee frame x × ((regs : ℕ → ℕ) (m : Memory) → k.memory regs m x ≡ m x)

-- The caller behind the call: behind the replaced `ecall`, with gp at the relocated global pointer.
pub record Answered (k : Kernel) (callee : Lines.State → Lines.State) (s u : State) : Type 0 where
  pub address : u.pc ≡ s.regs 3 / 2 * 2
  pub global : u.regs 3 ≡ s.pc
  pub kept : (x : ℕ) → IsKept k callee (s.regs 2 - 304) x → u.mem x ≡ s.mem x

module _ (k : Kernel) (callee : Lines.State → Lines.State) (s u : State) where
  Called-Answered : (Seen : ℕ → Type 0) → Called k callee Seen s.pc s u → Answered k callee s u
  Called-Answered Seen c = record {
    address = c.address;
    global = c.global;
    kept = λ x (spared, kernel).
        ap (λ (m : Memory). m x) c.written ∙ kernel c.registers c.memory ∙ c.elsewhere x spared;
  }

  Returned-Answered : (value : ℕ) → Returned callee s.pc value s u → Answered k callee s u
  Returned-Answered value r = record {
    address = r.address;
    global = r.global;
    kept = λ x (spared, _). r.elsewhere x spared;
  }

-- Every call but rt_sigreturn comes back.
pub intercept-Answered :
    (k : Kernel) (fetch : ℕ → ℕ) (hook_fn : Option HookFn) (symbol : ℕ)
    (callee : Lines.State → Lines.State)
    → IsCallee hook_fn symbol callee
    → (dst : ℕ) → dst < 2 ^ 64
    → dst % 2 ≡ 0
    → (s : State) → Fits symbol s
    → Holds fetch s.pc (trampoline dst)
    → Holds fetch (s.pc - 56) return_sequence
    → KeepsFrame k s
    → s.regs 17 ≢ 139
    → (u : State) × (intercept k fetch symbol callee (path_length hook_fn s) s ≡ some u)
      × Answered k callee s u
intercept-Answered k fetch hook_fn symbol callee c dst small even s f entry returns frame n =
    elim (syscall_hook-handled hook_fn (s.regs 10) (s.regs 11) (s.regs 12) (s.regs 13) (s.regs 14)
      (s.regs 15) (s.regs 3) (s.regs 17)) [
        | inr handled ↦
            let (u, e, r) =
              intercept-decided k fetch hook_fn symbol callee c dst small even s f entry returns n
                handled in
            (u, rw handled e, Returned-Answered k callee s u _ r)
        | inl forwarded ↦ elim (Bool-cases (s.regs 17 == 220 || s.regs 17 == 435)) [
          | inl clone ↦
              let number : (s.regs 17 ≡ 220) ⊎ (s.regs 17 ≡ 435) = ground (arith, clone) in
              let (u, e, r) =
                intercept-clone k fetch hook_fn symbol callee c dst small even s f entry returns
                  number forwarded in
              (u, rw (forwarded, clone) e, Called-Answered k callee s u _ r)
          | inr other ↦
              let (u, e, r) =
                intercept-forwarded k fetch hook_fn symbol callee c dst small even s f entry returns
                  frame n (ground (arith, other)) (ground (arith, other)) forwarded in
              (u, rw (forwarded, other) e, Called-Answered k callee s u _ r)
        ]
      ]
