-- ===== src/Interception/Replaced.antt =====
-- A forwarded call from a replaced `ecall`, in any memory that holds the generated code.
use vpoline.Common.{ℕ, ◌+◌, ◌-◌, ◌%◌, ◌^◌, ◌<◌, ◌≡◌, ◌≢◌, arith, true, Option, some}
use vpoline.Machine.{State, Kernel, run}
use vpoline.Patcher.{trampoline, return_sequence}
use vpoline.Patcher.Words.{Holds}
use vpoline.Hook.Callee.{HookFn}
use vpoline.Hook.Asked.{Forwards, syscall_hook-Forwards}
use vpoline.Memory.{load}
use vpoline.Hook.Lines as Lines
use vpoline.Hook.Call.{IsCallee}
use vpoline.Rewrite.{jalr_gp}
use vpoline.Interception.{intercept}
use vpoline.Interception.Entered.{Room, Room-Fits}
use vpoline.Interception.Forwarded.{KeepsFrame, intercept-forwarded}
use vpoline.Interception.Site.{called, served, site_step}
use vpoline.Interception.Transparent.{is_argument, IsKernel, IsQuiet, SameEffect, Called-SameEffect}

-- The outside of a call that is forwarded: a compiled `syscall_hook` that keeps to the calling
-- convention and writes only `depth` bytes of stack, and a kernel that takes a call from its
-- registers and does not look below sp.
pub record IsForwarding (k : Kernel) (hook_fn : Option HookFn) (symbol : ℕ)
    (callee : Lines.State → Lines.State) (depth : ℕ) (s : State) : Type 0 where
  pub convention : IsCallee hook_fn symbol callee
  pub quiet : IsQuiet callee (s.regs 2 - 304) depth
  pub kernel : IsKernel k (s.regs 2) depth
  pub frame : KeepsFrame k (called s)
  pub room : Room symbol (called s)
  pub no_sigreturn : s.regs 17 ≢ 139
  pub no_clone : s.regs 17 ≢ 220
  pub no_clone3 : s.regs 17 ≢ 435
  pub forwarded : Forwards hook_fn s.regs

seen_arguments : (r : ℕ) → is_argument r ≡ true → (r ≢ 2) × (r ≢ 3) × (r ≢ 5)
seen_arguments r is = ground arith

pub replaced-SameEffect :
    (k : Kernel) (fetch : ℕ → ℕ) (hook_fn : Option HookFn) (symbol : ℕ)
    (callee : Lines.State → Lines.State) (depth : ℕ) (s : State)
    → IsForwarding k hook_fn symbol callee depth s
    → (dst : ℕ) → dst < 2 ^ 64
    → dst % 2 ≡ 0
    → s.pc + 4 < 2 ^ 64
    → s.pc % 2 ≡ 0
    → fetch s.pc ≡ jalr_gp
    → load 8 s.mem symbol ≡ s.regs 3
    → Holds fetch (s.regs 3) (trampoline dst)
    → Holds fetch (s.regs 3 - 56) return_sequence
    → (u : State) × (run k fetch 1 s ≡ some (called s))
      × (intercept k fetch symbol callee 6 (called s) ≡ some u)
      × SameEffect depth s u (served k s)
replaced-SameEffect k fetch hook_fn symbol callee depth s f dst small even below place word variable
      entry returns =
    let fits = Room-Fits symbol (called s) f.room variable in
    let (u, e, c) =
      intercept-forwarded k fetch hook_fn symbol callee f.convention dst small even (called s) fits
        entry returns f.frame f.no_sigreturn f.no_clone f.no_clone3
        (syscall_hook-Forwards hook_fn s.regs (s.pc + 4) f.forwarded) in
    (
      u,
      site_step k fetch s word (omega (arith, fits.below)) fits.even below,
      e,
      Called-SameEffect k callee _ depth s u c seen_arguments f.kernel f.quiet fits.stack
          (omega arith),
    )
