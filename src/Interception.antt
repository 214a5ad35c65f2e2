-- ===== src/Interception.antt =====
-- The whole way of an intercepted call: the trampoline, the hook entry and a return path.
pub mod Returned
pub mod Entered
pub mod Handled
pub mod Forwarded
pub mod Clone
pub mod Site
pub mod Transparent
pub mod Replaced
pub mod Answered
pub mod Tests
use vpoline.Common.{ℕ, Option, none, some}
use vpoline.Machine.{State, Kernel, run}
use vpoline.Hook.{run_hook}
use vpoline.Hook.Lines.{jumped, trapped, out_of_fuel}
use vpoline.Hook.Lines as Lines

-- The registers and the memory, as the hook entry sees them.
abbrev pub hook_state : State → Lines.State
hook_state t = record { regs = t.regs; mem = t.mem }

-- From the first word of the trampoline, in 20 instructions to the hook entry, and from where its
-- lines jump to in a number of instructions on.
unfoldable pub intercept :
    Kernel
    → (fetch : ℕ → ℕ) (symbol : ℕ) → (Lines.State → Lines.State)
    → (steps : ℕ) → State
    → Option State
intercept k fetch symbol callee steps s = elim (run k fetch 20 s) [
  | none ↦ none
  | some t ↦ elim (run_hook symbol callee (hook_state t)) [
    | jumped a h ↦
        run k fetch steps (record { pc = a; regs = h.regs; mem = h.mem; calls = t.calls })
    | trapped ↦ none
    | out_of_fuel ↦ none
  ]
]
