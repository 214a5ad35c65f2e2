-- ===== src/Interception/Tests.antt =====
-- A handled call, a forwarded call and a clone at concrete addresses.
use vpoline.Common.{◌^◌, ◌<◌, ◌≢◌, ℕ, ◌≡◌, refl, arith, some, inl, []}
use vpoline.Memory.{Memory, load, store, store_words}
use vpoline.Machine.{State}
use vpoline.Patcher.{trampoline, return_sequence}
use vpoline.Patcher.Words.{Holds, Holds-store_words}
use vpoline.Patcher.Installed.{trampoline-Holds}
use vpoline.Patcher.Tests.{kernel}
use vpoline.Hook.Callee.{syscall_hook}
use vpoline.Hook.Asked.{asked}
use vpoline.Hook.Tests.{function, hook_fn, symbol, callee, callee-IsCallee, called, called-IsBytes}
use vpoline.Interception.{intercept}
use vpoline.Interception.Returned.{Returned, Called}
use vpoline.Interception.Entered.{Fits}
use vpoline.Interception.Handled.{intercept-handled}
use vpoline.Interception.Forwarded.{intercept-forwarded}
use vpoline.Interception.Clone.{intercept-clone}

abbrev hook_entry : ℕ
hook_entry = 0x7f12_9abc_d800

abbrev code : Memory
code =
    store_words (store_words (λ x. 0) 0x50_0800 (trampoline hook_entry)) 0x50_07c8 return_sequence

-- The program makes a system call with its stack at 0x10000.
abbrev calling : ℕ → State
calling a7 = record { pc = 0x50_0800; regs = (called a7).regs; mem = (called a7).mem; calls = [] }

calling-Fits : (a7 : ℕ) → a7 < 2 ^ 64 → Fits symbol (calling a7)
unfolding load store
calling-Fits a7 small = record {
  words = λ r. ground arith;
  bytes = called-IsBytes a7;
  stack = omega arith;
  apart = inl (omega arith);
  small = omega arith;
  global = refl;
  even = refl;
  enough = omega arith;
  below = omega arith;
}

entry_held : Holds (load 4 code) 0x50_0800 (trampoline hook_entry)
entry_held = trampoline-Holds hook_entry 0x50_07c8 0x50_0800 (λ x. 0) refl

returns_held : Holds (load 4 code) 0x50_07c8 return_sequence
returns_held =
    Holds-store_words return_sequence (store_words (λ x. 0) 0x50_0800 (trampoline hook_entry))
      0x50_07c8

intercept-handled_example :
    (u : State) × (intercept kernel (load 4 code) symbol callee 5 (calling 64) ≡ some u)
    × Returned callee 0x50_0800 (asked function (calling 64).regs).result (calling 64) u
intercept-handled_example =
    intercept-handled kernel (load 4 code) function symbol callee callee-IsCallee hook_entry
      (omega arith) refl (calling 64) (calling-Fits 64 (omega arith)) entry_held returns_held
      (omega arith) refl

intercept-forwarded_example :
    (u : State) × (intercept kernel (load 4 code) symbol callee 6 (calling 63) ≡ some u)
    × Called kernel callee (λ r. (r ≢ 2) × (r ≢ 3) × (r ≢ 5)) 0x50_0800 (calling 63) u
unfolding syscall_hook
intercept-forwarded_example =
    intercept-forwarded kernel (load 4 code) hook_fn symbol callee callee-IsCallee hook_entry
      (omega arith) refl (calling 63) (calling-Fits 63 (omega arith)) entry_held returns_held
      (λ regs m x p q. refl) (omega arith) (omega arith) (omega arith) refl

intercept-clone_example :
    (u : State) × (intercept kernel (load 4 code) symbol callee 5 (calling 220) ≡ some u)
    × Called kernel callee (λ r. Unit {0}) 0x50_0800 (calling 220) u
unfolding syscall_hook
intercept-clone_example =
    intercept-clone kernel (load 4 code) hook_fn symbol callee callee-IsCallee hook_entry
      (omega arith) refl (calling 220) (calling-Fits 220 (omega arith)) entry_held returns_held
      (inl refl) refl
