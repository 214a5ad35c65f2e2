-- ===== src/Startup/CallTests.antt =====
-- System calls behind a start of a process.
use vpoline.Common.{◌≡◌, ◌≢◌, refl, arith, some, inl, inr}
use vpoline.Memory.{load}
use vpoline.Machine.{State, run}
use vpoline.Patcher.Tests.{kernel}
use vpoline.Hook.Asked.{asked}
use vpoline.Hook.Tests as Hook
use vpoline.Interception.{intercept}
use vpoline.Interception.Returned.{Returned, Called}
use vpoline.Interception.Site.{called}
use vpoline.Maps.Tests.{mappings}
use vpoline.Startup.Intercepted.{ecall-handled, ecall-forwarded, ecall-clone}
use vpoline.Startup.Tests.{system, symbols, process, placed, set_up}
use vpoline.Startup.FinishedTests.{
  finished, finished_run, site, calling, calling-IsRunning, calling-Room,
}

ecall-handled_example :
    (u : State) × (run kernel (load 4 (calling 64).mem) 1 (calling 64) ≡ some (called (calling 64)))
    × (intercept kernel (load 4 (calling 64).mem) Hook.symbol Hook.callee 5 (called (calling 64))
        ≡ some u)
    × Returned Hook.callee finished.gp
        (asked Hook.function (calling 64).regs).result
        (called (calling 64))
        u
ecall-handled_example =
    ecall-handled system symbols process 12 0x50_0000 placed mappings 0x9100 set_up finished
      finished_run kernel Hook.callee (omega arith) refl (calling 64) (calling-IsRunning 64) site
      (omega arith) (calling-Room 64 (omega arith)) Hook.function Hook.callee-IsCallee (omega arith)
      refl

ecall-forwarded_example :
    (u : State) × (run kernel (load 4 (calling 63).mem) 1 (calling 63) ≡ some (called (calling 63)))
    × (intercept kernel (load 4 (calling 63).mem) Hook.symbol Hook.callee 6 (called (calling 63))
        ≡ some u)
    × Called kernel Hook.callee
        (λ r. (r ≢ 2) × (r ≢ 3) × (r ≢ 5))
        finished.gp
        (called (calling 63))
        u
ecall-forwarded_example =
    ecall-forwarded system symbols process 12 0x50_0000 placed mappings 0x9100 set_up finished
      finished_run kernel Hook.callee (omega arith) refl (calling 63) (calling-IsRunning 63) site
      (omega arith) (calling-Room 63 (omega arith)) Hook.hook_fn Hook.callee-IsCallee
      (λ regs m x p q. refl) (omega arith) (omega arith) (omega arith)
      (inr (Hook.function, refl, omega arith))

ecall-clone_example :
    (u : State) × (run kernel (load 4 (calling 220).mem) 1 (calling 220)
      ≡ some (called (calling 220)))
    × (intercept kernel (load 4 (calling 220).mem) Hook.symbol Hook.callee 5 (called (calling 220))
        ≡ some u)
    × Called kernel Hook.callee (λ r. Unit {0}) finished.gp (called (calling 220)) u
ecall-clone_example =
    ecall-clone system symbols process 12 0x50_0000 placed mappings 0x9100 set_up finished
      finished_run kernel Hook.callee (omega arith) refl (calling 220) (calling-IsRunning 220) site
      (omega arith) (calling-Room 220 (omega arith)) Hook.hook_fn Hook.callee-IsCallee (inl refl)
      (inr (Hook.function, refl, omega arith))
