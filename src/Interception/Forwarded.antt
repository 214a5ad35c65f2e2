-- ===== src/Interception/Forwarded.antt =====
-- An intercepted call that is forwarded to the kernel, other than clone and clone3.
use vpoline.Common.{
  ℕ, ◌+◌, ◌-◌, ◌%◌, ◌^◌, ◌≤◌, ◌<◌, ◌≡◌, ◌≢◌, refl, arith, some, Option, ◌∙◌, ap, sym, u64, ◌∷◌, ◌/◌,
  ◌*◌, Bool-cases, inl, inr, ◌==◌,
}
use vpoline.Memory.{Memory, load}
use vpoline.Memory.Laws.{load_ext}
use vpoline.Machine.{State, Kernel, run, go}
use vpoline.Patcher.{trampoline, return_sequence}
use vpoline.Patcher.Words.{Holds}
use vpoline.Patcher.Return.{unwind, leave, forwarded_steps, syscall}
use vpoline.Hook.Callee.{HookFn, WrapperRet, syscall_hook-value}
use vpoline.Hook.Lines as Lines
use vpoline.Hook.Call.{IsCallee}
use vpoline.Hook.Leave.{return_offset}
use vpoline.Hook.Context.{decision}
use vpoline.Interception.{hook_state, intercept}
use vpoline.Interception.Returned.{
  left, left_ra, left_elsewhere, left_t0, left_sp, update_ne, unwind_other, unwind-kept, leave-kept,
  Called,
}
use vpoline.Interception.Entered.{Fits, enter, intercept_steps}

-- The kernel does not write the frame of 304 bytes below the stack of the caller.
abbrev pub KeepsFrame : Kernel → State → Type 0
KeepsFrame k s =
    (regs : ℕ → ℕ) (m : Memory) (x : ℕ)
    → s.regs 2 - 304 ≤ x
    → x < s.regs 2
    → k.memory regs m x ≡ m x

-- For an address of the hook entry that is even and below 2^64, a `syscall_hook` that keeps to the
-- calling convention, addresses that fit, and memory that holds the trampoline and the return
-- sequence, and for a kernel that does not write the frame: a system call
-- other than rt_sigreturn, clone and clone3 that the hook forwards is made once, with every integer
-- and floating-point register of the caller but sp, gp and t0. In 20 instructions before the entry
-- and 6 behind it control is behind the replaced `ecall`, with the result of the kernel in a0, gp
-- at the relocated global pointer, and every other register as before the call. The kernel finds
-- each byte outside the frame that `syscall_hook` keeps as it was.
pub intercept-forwarded :
    (k : Kernel) (fetch : ℕ → ℕ) (hook_fn : Option HookFn) (symbol : ℕ)
    (callee : Lines.State → Lines.State)
    → IsCallee hook_fn symbol callee
    → (dst : ℕ) → dst < 2 ^ 64
    → dst % 2 ≡ 0
    → (s : State) → Fits symbol s
    → Holds fetch s.pc (trampoline dst)
    → Holds fetch (s.pc - 56) return_sequence
    → KeepsFrame k s
    → s.regs 17 ≢ 139
    → s.regs 17 ≢ 220
    → s.regs 17 ≢ 435
    → (decision hook_fn (hook_state s)).handled ≡ 0
    → (u : State) × (intercept k fetch symbol callee 6 s ≡ some u)
      × Called k callee (λ r. (r ≢ 2) × (r ≢ 3) × (r ≢ 5)) s.pc s u
unfolding return_offset
intercept-forwarded k fetch hook_fn symbol callee c dst small even s f entry returns frame n n220
      n435 forwarded =
    let w = enter k fetch hook_fn symbol callee c dst small even s f entry n in
    let decided : WrapperRet = decision hook_fn (hook_state s) in
    let offset : return_offset decided.handled (s.regs 17) ≡ 40 = ground (arith, forwarded) in
    let there = w.jumps ∙ ap (λ a. Lines.jumped (s.pc - a) w.exit_state) offset in
    let back : State =
      left s w.entry dst symbol w.enters f.words f.stack callee decided w.exit_state w.prepared in
    let sp =
      left_sp s w.entry dst symbol w.enters f.words f.stack callee decided w.exit_state
        w.prepared in
    let old_ra =
      left_ra s w.entry dst symbol w.enters f.words f.stack callee decided w.exit_state
        w.prepared in
    let old_t0 =
      left_t0 s w.entry dst symbol w.enters f.words f.stack callee decided w.exit_state
        w.prepared in
    let frame_kept : (o : ℕ)
        → o + 8 ≤ 304
        → load 8 (syscall k back).mem (u64 (back.regs 2 + o))
          ≡ load 8 back.mem (u64 (back.regs 2 + o)) =
      λ o top. load_ext 8 (syscall k back).mem back.mem (u64 (back.regs 2 + o)) (λ x p q.
        frame back.regs back.mem x (omega (arith, sp, f.words 2, f.stack))
          (omega (arith, sp, f.words 2, f.stack))) in
    let ra = frame_kept 288 (omega arith) ∙ old_ra in
    let t0 = frame_kept 0 (omega arith) ∙ old_t0 in
    let own : w.exit_state.regs 10 ≡ s.regs 10 =
      w.prepared.value
      ∙ syscall_hook-value hook_fn (s.regs 10) (s.regs 11) (s.regs 12) (s.regs 13) (s.regs 14)
          (s.regs 15) (s.regs 3) (s.regs 17) forwarded in
    let seen : (r : ℕ) → r < 64 → r ≢ 2 → r ≢ 3 → r ≢ 5 → back.regs r ≡ s.regs r =
      λ r bound n2 n3 n5. elim (Bool-cases (r == 10)) [
        | inl e ↦ let here : r ≡ 10 = ground arith in rw here own
        | inr n10 ↦
            sym (unwind_other back r n2 n3 n5)
            ∙ unwind-kept s w.entry dst symbol w.enters f.words f.stack callee decided w.exit_state
                w.prepared back (λ q n. refl) old_ra old_t0 r bound n3 (ground arith)
      ] in
    let from : s.pc - 40 ≡ s.pc - 56 + 16 = omega (arith, f.enough) in
    (
      leave (s.pc - 56 + 56) (unwind (syscall k back)),
      intercept_steps k fetch symbol callee 6 s w.entry w.exit_state (s.pc - 40) w.arrives there
          ∙ ap (λ p. run k fetch 6 (go p back)) from
          ∙ forwarded_steps k fetch (s.pc - 56) (omega (arith, f.below, f.enough)) returns back
              (omega (arith, ra, f.words 3)),
      record {
        registers = back.regs;
        memory = back.mem;
        sees = λ r bound (n2, n3, n5). seen r bound n2 n3 n5;
        elsewhere =
            left_elsewhere s w.entry dst symbol w.enters f.words f.stack callee decided w.exit_state
              w.prepared;
        calls = ap (λ l. back.regs ∷ l) w.enters.no_call;
        result = refl;
        written = refl;
        address = ap (λ a. a / 2 * 2) ra;
        global = omega (arith, f.enough);
        kept =
            leave-kept s w.entry dst symbol w.enters f.words f.stack callee decided w.exit_state
              w.prepared (syscall k back)
              (λ r n. update_ne back.regs 10 (k.result back.regs back.mem) r n) ra t0
              (s.pc - 56 + 56);
      },
    )
