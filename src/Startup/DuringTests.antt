-- ===== src/Startup/DuringTests.antt =====
-- A system call of libc behind a start of a process, and one in the middle of its set-up.
use vpoline.Common.{ℕ, ◌≡◌, ◌⊎◌, refl, arith, true, false, none, some, inl, inr, [], ◌≢◌, ==_ne}
use vpoline.Memory.{Memory, load, store, store_words, update}
use vpoline.Machine.{State, run}
use vpoline.Patcher.Tests.{kernel}
use vpoline.Hook.Callee.{syscall_hook}
use vpoline.Hook.Lines as Lines
use vpoline.Hook.Call.{IsCallee, callee_saved}
use vpoline.Hook.Tests as Hook
use vpoline.Interception.{intercept}
use vpoline.Interception.Site.{called, served}
use vpoline.Interception.Transparent.{IsKernel, SameEffect}
use vpoline.Interception.Replaced.{IsForwarding}
use vpoline.Rewrite.{jalr_gp, intercept_disasm_next_instruction}
use vpoline.Patcher.{trampoline}
use vpoline.Rewrite.Tests.{capstone, capstone-IsCapstone}
use vpoline.Rewrite.Moments.{Reaches}
use vpoline.Maps.Moments.{Moments, context_of}
use vpoline.Maps.Tests.{mappings, mappings-IsMapping, libc_code}
use vpoline.Maps.Line.{is_target, rewrite_target}
use vpoline.Startup.Intercepted.{ecall-transparent}
use vpoline.Startup.During.{IsDecoder, ecall-during}
use vpoline.Startup.Tests.{
  system, symbols, process, placed, is_placed, granting, sorted, apart, set_up,
}
use vpoline.Memory.Laws.{IsBytes, store-IsBytes, store_words-IsBytes}
use vpoline.Startup.FinishedTests.{
  installed, installed_run, finished, finished_run, site, calling, calling-IsRunning, calling-Room,
}

kernel-IsKernel : (sp depth : ℕ) → IsKernel kernel sp depth
kernel-IsKernel sp depth = record {
  same_result = λ regs regs' m m' same out.
      let number = same 17 refl in let first = same 10 refl in rw (number, first) refl;
  same_memory = λ regs regs' m m' same out x beyond. out x beyond;
}

forwarding : IsForwarding kernel Hook.hook_fn Hook.symbol Hook.callee 0 (calling 63)
forwarding = record {
  convention = Hook.callee-IsCallee;
  quiet = λ s x frame out. refl;
  kernel = kernel-IsKernel 0x1_0000 0;
  frame = λ regs m x p q. refl;
  room = calling-Room 63 (omega arith);
  no_sigreturn = omega arith;
  no_clone = omega arith;
  no_clone3 = omega arith;
  forwarded = inr (Hook.function, refl, omega arith);
}

ecall-transparent_example :
    (u : State) × (run kernel (load 4 (calling 63).mem) 1 (calling 63) ≡ some (called (calling 63)))
    × (intercept kernel (load 4 (calling 63).mem) Hook.symbol Hook.callee 6 (called (calling 63))
        ≡ some u)
    × SameEffect 0 (calling 63) u (served kernel (calling 63))
ecall-transparent_example =
    ecall-transparent system symbols process 12 0x50_0000 placed mappings 0x9100 set_up finished
      finished_run kernel Hook.callee (omega arith) refl (calling 63) (calling-IsRunning 63) site
      (omega arith) (calling-Room 63 (omega arith)) Hook.hook_fn 0 forwarding refl

-- A compiled `syscall_hook` before a hook function is set.
abbrev callee : Lines.State → Lines.State
callee s = record s { regs = update (update s.regs 11 0) 5 0xdead }

not_results : (r : ℕ) → callee_saved r ≡ true → (r ≢ 5) × (r ≢ 10) × (r ≢ 11)
not_results r h = ground arith

callee-IsCallee : IsCallee none Hook.symbol callee
unfolding syscall_hook
callee-IsCallee = record {
  value = λ s. refl;
  handled = λ s. refl;
  saved = λ s r h. let (n5, n10, n11) = not_results r h in rw (==_ne r 5 n5, ==_ne r 11 n11);
  frame = λ s x p q. refl;
  global = λ s. refl;
}

abbrev half_done : Memory
half_done = store 4 installed.memory 0x4002 jalr_gp

-- The program while the set-up is at work.
abbrev early : State
early = record (calling 63) { mem = half_done }

early-IsBytes : IsBytes half_done
early-IsBytes = store-IsBytes 4 _ _ _ (
    store_words-IsBytes _ _ _ (
      store_words-IsBytes _ _ _
        (store-IsBytes 8 _ _ _ (store_words-IsBytes _ _ _ (λ x. omega arith)))))

unset : IsForwarding kernel none Hook.symbol callee 0 early
unset = record {
  convention = callee-IsCallee;
  quiet = λ s x frame out. refl;
  kernel = kernel-IsKernel 0x1_0000 0;
  frame = λ regs m x p q. refl;
  room = record {
    words = λ r. ground arith;
    bytes = early-IsBytes;
    stack = omega arith;
    apart = inl (omega arith);
    small = omega arith;
    even = refl;
    enough = omega arith;
    below = omega arith;
  };
  no_sigreturn = omega arith;
  no_clone = omega arith;
  no_clone3 = omega arith;
  forwarded = inl refl;
}

half_done-Reaches : Reaches capstone (context_of libc_code) 0x4000 installed.memory 0x4006 half_done
unfolding load store store_words intercept_disasm_next_instruction trampoline
half_done-Reaches =
    Reaches.pass 0x4002 installed.memory
      (record { address = 0x4002; is_syscall = true; length = 4 })
      (Reaches.pass 0x4000 installed.memory
        (record { address = 0x4000; is_syscall = false; length = 2 }) Reaches.start refl refl)
      refl refl

half_done-Moments : Moments capstone (λ request. true) mappings installed.memory half_done
unfolding rewrite_target is_target vpoline.Text.strstr
half_done-Moments =
    let mem = installed.memory in
    Moments.behind _ _ mem mem half_done refl (
      Moments.behind _ _ mem mem half_done refl
        (Moments.within libc_code [] mem 0x4006 half_done refl half_done-Reaches))

capstone-IsDecoder : IsDecoder capstone
capstone-IsDecoder m a size i e call = ground arith

ecall-during_example :
    (u : State) × ((run kernel (load 4 half_done) 1 early ≡ some u)
      ⊎ ((run kernel (load 4 half_done) 1 early ≡ some (called early))
          × (intercept kernel (load 4 half_done) Hook.symbol callee 6 (called early) ≡ some u)))
    × SameEffect 0 early u (served kernel early)
ecall-during_example =
    ecall-during system symbols process 12 0x50_0000 placed granting is_placed (omega arith)
      (omega arith) capstone-IsCapstone capstone-IsDecoder mappings mappings-IsMapping apart refl
      sorted (inl (omega arith)) installed installed_run half_done half_done-Moments kernel callee 0
      early unset (omega arith) refl site refl (λ x code. refl) (omega arith) refl
