-- ===== src/Direct.antt =====
-- src/main.c: `syscall_no_intercept`, with which a hook function makes system calls of its own.
pub mod Called
mod Tests
use vpoline.Common.{ℕ, ◌/◌, ◌*◌, List, [], ◌∷◌, Option, none, some}
use vpoline.Memory.{update}
use vpoline.Machine.{State, Kernel, go}
use vpoline.Patcher.Return.{syscall}
use vpoline.Hook.Registers.{ra, a0, a1, a2, a3, a4, a5, a6, a7}

-- Its lines of assembly.
pub data Line : Type 0 where
  mv : (rd rs : ℕ) → Line
  ecall ret : Line

-- The lines from `syscall_no_intercept` on.
abbrev pub syscall_no_intercept : List Line
syscall_no_intercept =
    mv a7 a0 ∷ mv a0 a1 ∷ mv a1 a2 ∷ mv a2 a3 ∷ mv a3 a4 ∷ mv a4 a5 ∷ mv a5 a6 ∷ ecall ∷ ret ∷ []

-- The run of lines up to `ret`, which jumps to the address in ra.
unfoldable pub run_direct : Kernel → List Line → State → Option State
run_direct k [] s = none
run_direct k (mv rd rs ∷ lines) s =
    run_direct k lines (record s { regs = update s.regs rd (s.regs rs) })
run_direct k (ecall ∷ lines) s = run_direct k lines (syscall k s)
run_direct k (ret ∷ lines) s = some (go (s.regs ra / 2 * 2) s)
