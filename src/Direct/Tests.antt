-- ===== src/Direct/Tests.antt =====
-- write(1, 0x2000, 5) through `syscall_no_intercept`.
use vpoline.Common.{◌≡◌, some, [], ◌==◌, if◌then◌else◌}
use vpoline.Machine.{State, Kernel}
use vpoline.Direct.{syscall_no_intercept, run_direct}
use vpoline.Direct.Called.{CallsKernel, syscall_no_intercept-CallsKernel}

-- The result of write is its third argument.
abbrev kernel : Kernel
kernel = record {
  result = λ regs mem. if regs 17 == 64 then regs 12 else 0;
  memory = λ regs mem. mem;
}

abbrev writing : State
writing = record {
  pc = 0x8200;
  regs = λ r.
      if r == 1
      then 0x9000
      else if r == 10
      then 64
      else if r == 11
      then 1
      else if r == 12
      then 0x2000
      else if r == 13
      then 5
      else r;
  mem = λ x. 0;
  calls = [];
}

syscall_no_intercept-CallsKernel_example :
    (u : State) × (run_direct kernel syscall_no_intercept writing ≡ some u)
    × CallsKernel kernel writing u
syscall_no_intercept-CallsKernel_example = syscall_no_intercept-CallsKernel kernel writing
