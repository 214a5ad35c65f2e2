-- ===== src/Startup/Signal.antt =====
-- The delivery of SIGSEGV to the handler and the way back, as the kernel documents it: the registers
-- of the program are in the context, and are taken from there when the handler returns.
use vpoline.Common.{◌+◌, ◌-◌, ltb, ◌==◌, if◌then◌else◌}
use vpoline.Memory.{Memory}
use vpoline.Machine.{State}
use vpoline.Handler.Emulate.{Context}

-- The program counter stands in the place of register 0.
abbrev pub saved : State → Context
saved s = record { gregs = λ r. if r == 0 then s.pc else s.regs r; fregs = λ r. s.regs (r + 32) }

abbrev pub restored : State → Context → Memory → State
restored s ctx mem = record {
  pc = ctx.gregs 0;
  regs = λ r. if r == 0 then s.regs 0 else if ltb r 32 then ctx.gregs r else ctx.fregs (r - 32);
  mem = mem;
  calls = s.calls;
}
