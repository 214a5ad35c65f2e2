-- ===== src/Interception/Handled.antt =====
-- An intercepted call that the hook function handles.
use vpoline.Common.{ℕ, ◌+◌, ◌-◌, ◌%◌, ◌^◌, ◌<◌, ◌≡◌, ◌≢◌, refl, arith, some, Option, ◌∙◌, ap}
use vpoline.Machine.{State, Kernel}
use vpoline.Patcher.{trampoline, return_sequence}
use vpoline.Patcher.Words.{Holds}
use vpoline.Patcher.Return.{unwind, leave, handled_steps}
use vpoline.Hook.Callee.{HookFn, WrapperRet}
use vpoline.Hook.Asked.{asked, syscall_hook-asked}
use vpoline.Hook.Lines as Lines
use vpoline.Hook.Call.{IsCallee}
use vpoline.Hook.Leave.{return_offset}
use vpoline.Hook.Context.{decision}
use vpoline.Interception.{hook_state, intercept}
use vpoline.Interception.Returned.{left, left_ra, returned, Returned}
use vpoline.Interception.Entered.{Fits, enter, intercept_steps}

-- A call that `syscall_hook` decides to handle, with its value.
pub intercept-decided :
    (k : Kernel) (fetch : ℕ → ℕ) (hook_fn : Option HookFn) (symbol : ℕ)
    (callee : Lines.State → Lines.State)
    → IsCallee hook_fn symbol callee
    → (dst : ℕ) → dst < 2 ^ 64
    → dst % 2 ≡ 0
    → (s : State) → Fits symbol s
    → Holds fetch s.pc (trampoline dst)
    → Holds fetch (s.pc - 56) return_sequence
    → s.regs 17 ≢ 139
    → (decision hook_fn (hook_state s)).handled ≡ 1
    → (u : State) × (intercept k fetch symbol callee 5 s ≡ some u)
      × Returned callee s.pc (decision hook_fn (hook_state s)).value s u
unfolding return_offset
intercept-decided k fetch hook_fn symbol callee c dst small even s f entry returns n handled =
    let w = enter k fetch hook_fn symbol callee c dst small even s f entry n in
    let decided : WrapperRet = decision hook_fn (hook_state s) in
    let offset : return_offset decided.handled (s.regs 17) ≡ 56 = rw handled refl in
    let there = w.jumps ∙ ap (λ a. Lines.jumped (s.pc - a) w.exit_state) offset in
    let back : State =
      left s w.entry dst symbol w.enters f.words f.stack callee decided w.exit_state w.prepared in
    let ra =
      left_ra s w.entry dst symbol w.enters f.words f.stack callee decided w.exit_state
        w.prepared in
    (
      leave (s.pc - 56 + 56) (unwind back),
      intercept_steps k fetch symbol callee 5 s w.entry w.exit_state (s.pc - 56) w.arrives there
          ∙ handled_steps k fetch (s.pc - 56) (omega (arith, f.below, f.enough)) returns back
              (omega (arith, ra, f.words 3)),
      returned s w.entry dst symbol w.enters f.words f.stack callee decided w.exit_state w.prepared
          f.enough,
    )

-- For an address of the hook entry that is even and below 2^64, a `syscall_hook` that keeps to the
-- calling convention, addresses that fit, and memory that holds the trampoline and the return
-- sequence: a system call other than rt_sigreturn, for which the hook function, asked with the
-- number and the six arguments of the caller, returns 0, comes back in 20 instructions before the
-- entry and 5 behind it, to the address that the replaced `ecall` left in gp, its lowest bit
-- cleared. There a0 holds what the hook function has left in `*result`, gp the relocated global
-- pointer, and every other integer and floating-point register its value from before the call; no
-- system call has been made. Of the bytes outside the frame, those that `syscall_hook` keeps are as
-- they were.
pub intercept-handled :
    (k : Kernel) (fetch : ℕ → ℕ) (hook : HookFn) (symbol : ℕ) (callee : Lines.State → Lines.State)
    → IsCallee (some hook) symbol callee
    → (dst : ℕ) → dst < 2 ^ 64
    → dst % 2 ≡ 0
    → (s : State) → Fits symbol s
    → Holds fetch s.pc (trampoline dst)
    → Holds fetch (s.pc - 56) return_sequence
    → s.regs 17 ≢ 139
    → (asked hook s.regs).ret ≡ 0
    → (u : State) × (intercept k fetch symbol callee 5 s ≡ some u)
      × Returned callee s.pc (asked hook s.regs).result s u
intercept-handled k fetch hook symbol callee c dst small even s f entry returns n handles =
    let (handled, value) = syscall_hook-asked hook s.regs (s.regs 3) handles in
    let (u, e, r) =
      intercept-decided k fetch (some hook) symbol callee c dst small even s f entry returns n
        handled in
    (u, e, rw (← value) r)
