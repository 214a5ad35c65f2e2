-- ===== src/Interception/Clone.antt =====
-- An intercepted clone or clone3 that is forwarded to the kernel.
use vpoline.Common.{
  ℕ, ◌+◌, ◌-◌, ◌%◌, ◌^◌, ◌<◌, ◌≡◌, ◌≢◌, refl, arith, some, Option, ◌∙◌, ap, ◌⊎◌, ◌∷◌, ◌/◌, ◌*◌,
  Bool-cases, inl, inr, ◌==◌,
}
use vpoline.Machine.{State, Kernel, run, go}
use vpoline.Patcher.{trampoline, return_sequence}
use vpoline.Patcher.Words.{Holds}
use vpoline.Patcher.Return.{unwind, leave, clone_steps, syscall}
use vpoline.Hook.Callee.{HookFn, WrapperRet, syscall_hook-value}
use vpoline.Hook.Lines as Lines
use vpoline.Hook.Call.{IsCallee}
use vpoline.Hook.Leave.{return_offset}
use vpoline.Hook.Context.{decision}
use vpoline.Interception.{hook_state, intercept}
use vpoline.Interception.Returned.{
  left, left_ra, left_elsewhere, left_t0, leave-syscall_other, unwind-kept, Called,
}
use vpoline.Interception.Entered.{Fits, enter, intercept_steps}

-- For an address of the hook entry that is even and below 2^64, a `syscall_hook` that keeps to the
-- calling convention, addresses that fit, and memory that holds the trampoline and the return
-- sequence: a clone or clone3 that the hook forwards is made once, with
-- every integer and floating-point register as the caller had it, sp, gp and t0 too. Then, in 20
-- instructions before the entry and 5 behind it, control is behind the replaced `ecall`, with the
-- result of the kernel in a0, gp at the relocated global pointer, and every other register as before
-- the call. The kernel finds each byte outside the frame that `syscall_hook` keeps as it was.
pub intercept-clone :
    (k : Kernel) (fetch : ℕ → ℕ) (hook_fn : Option HookFn) (symbol : ℕ)
    (callee : Lines.State → Lines.State)
    → IsCallee hook_fn symbol callee
    → (dst : ℕ) → dst < 2 ^ 64
    → dst % 2 ≡ 0
    → (s : State) → Fits symbol s
    → Holds fetch s.pc (trampoline dst)
    → Holds fetch (s.pc - 56) return_sequence
    → (s.regs 17 ≡ 220) ⊎ (s.regs 17 ≡ 435)
    → (decision hook_fn (hook_state s)).handled ≡ 0
    → (u : State) × (intercept k fetch symbol callee 5 s ≡ some u)
      × Called k callee (λ r. Unit) s.pc s u
unfolding return_offset
intercept-clone k fetch hook_fn symbol callee c dst small even s f entry returns clone forwarded =
    let w = enter k fetch hook_fn symbol callee c dst small even s f entry (ground arith) in
    let decided : WrapperRet = decision hook_fn (hook_state s) in
    let offset : return_offset decided.handled (s.regs 17) ≡ 20 =
      ground (arith, forwarded, clone) in
    let there = w.jumps ∙ ap (λ a. Lines.jumped (s.pc - a) w.exit_state) offset in
    let back : State =
      left s w.entry dst symbol w.enters f.words f.stack callee decided w.exit_state w.prepared in
    let ra =
      left_ra s w.entry dst symbol w.enters f.words f.stack callee decided w.exit_state
        w.prepared in
    let t0 =
      left_t0 s w.entry dst symbol w.enters f.words f.stack callee decided w.exit_state
        w.prepared in
    let own : w.exit_state.regs 10 ≡ s.regs 10 =
      w.prepared.value
      ∙ syscall_hook-value hook_fn (s.regs 10) (s.regs 11) (s.regs 12) (s.regs 13) (s.regs 14)
          (s.regs 15) (s.regs 3) (s.regs 17) forwarded in
    let from : s.pc - 20 ≡ s.pc - 56 + 36 = omega (arith, f.enough) in
    let keep : (r : ℕ) → r < 64 → r ≢ 3 → r ≢ 10 → (unwind back).regs r ≡ s.regs r =
      unwind-kept s w.entry dst symbol w.enters f.words f.stack callee decided w.exit_state
        w.prepared back (λ r n. refl) ra t0 in
    (
      leave (s.pc - 56 + 56) (syscall k (unwind back)),
      intercept_steps k fetch symbol callee 5 s w.entry w.exit_state (s.pc - 20) w.arrives there
          ∙ ap (λ p. run k fetch 5 (go p back)) from
          ∙ clone_steps k fetch (s.pc - 56) (omega (arith, f.below, f.enough)) returns back
              (omega (arith, ra, f.words 3)),
      record {
        registers = (unwind back).regs;
        memory = back.mem;
        sees = λ r bound any. elim (Bool-cases (r == 3)) [
          | inl e ↦ let here : r ≡ 3 = ground arith in rw here ra
          | inr n3 ↦ elim (Bool-cases (r == 10)) [
            | inl e ↦ let here : r ≡ 10 = ground arith in rw here own
            | inr n10 ↦ keep r bound (ground arith) (ground arith)
          ]
        ];
        elsewhere =
            left_elsewhere s w.entry dst symbol w.enters f.words f.stack callee decided w.exit_state
              w.prepared;
        calls = ap (λ l. (unwind back).regs ∷ l) w.enters.no_call;
        result = refl;
        written = refl;
        address = ap (λ a. a / 2 * 2) ra;
        global = omega (arith, f.enough);
        kept = λ r bound n3 n10.
            leave-syscall_other k (s.pc - 56 + 56) (unwind back) r n3 n10 ∙ keep r bound n3 n10;
      },
    )
