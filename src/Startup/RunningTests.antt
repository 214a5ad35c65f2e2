-- ===== src/Startup/RunningTests.antt =====
-- A program that runs in a process that was started.
use vpoline.Common.{◌≡◌, refl, arith}
use vpoline.Memory.{update}
use vpoline.Machine.{State}
use vpoline.Patcher.Tests.{kernel}
use vpoline.Hook.Tests as Hook
use vpoline.Maps.Tests.{mappings}
use vpoline.Startup.Words.{IsRunning}
use vpoline.Startup.Tests.{system, symbols, process, placed, set_up}
use vpoline.Startup.FinishedTests.{finished, finished_run, site, code-Apart, calling, calling-Room}
use vpoline.Startup.Running.{IsCall, Due, behind, Step, Steps, Steps-answered}

-- The program sets up its call.
abbrev earlier : State
earlier = record (calling 63) { pc = 0x3ff0; regs = update (calling 63).regs 17 0 }

earlier-IsRunning : IsRunning 0x2000 0x50_0000 4096 mappings finished earlier
earlier-IsRunning = record { global = refl; code = λ x code. refl }

calling-IsCall :
    IsCall system symbols process 0x50_0000 placed mappings finished kernel (calling 63)
calling-IsCall = record {
  site = site;
  below = omega arith;
  hook_fn = Hook.hook_fn;
  callee = Hook.callee;
  convention = Hook.callee-IsCallee;
  room = calling-Room 63 (omega arith);
  frame = λ regs m x p q. refl;
  number = omega arith;
  kept = λ x code. ((ground (arith, code-Apart x code), λ s e. refl), λ regs m. refl);
}

abbrev due : Due system symbols process 0x50_0000 placed mappings finished kernel (calling 63)
due = Due.by_hook calling-IsCall

Steps-answered_example :
    IsRunning 0x2000 0x50_0000 4096 mappings finished (calling 63)
    × ((u : State) × Step system symbols process 0x50_0000 placed mappings finished kernel
          (calling 63)
          u
        × IsRunning 0x2000 0x50_0000 4096 mappings finished u
        × (u.pc
            ≡ behind system symbols process 0x50_0000 placed mappings finished kernel
                (calling 63)
                due))
Steps-answered_example =
    Steps-answered system symbols process 0x50_0000 placed mappings finished kernel 12 0x9100 set_up
      finished_run (omega arith) refl earlier (calling 63) earlier-IsRunning
      (Steps.next earlier (calling 63) Steps.start (Step.work refl (λ x code. refl))) due
