-- ===== src/Startup/Intercepted.antt =====
-- A system call of libc behind the set-up, from its replaced `ecall` to the instruction behind it.
use vpoline.Common.{ℕ, ◌+◌, ◌%◌, ◌^◌, ◌<◌, ◌≡◌, ◌≢◌, arith, List, Option, some, ◌⊎◌}
use vpoline.Memory.{load}
use vpoline.Layout.{Globals}
use vpoline.Machine.{State, Kernel, run}
use vpoline.Hook.Callee.{HookFn}
use vpoline.Hook.Lines as Lines
use vpoline.Hook.Call.{IsCallee}
use vpoline.Interception.{intercept}
use vpoline.Interception.Returned.{Returned, Called}
use vpoline.Interception.Entered.{Fits, Room, Room-Fits}
use vpoline.Interception.Handled.{intercept-handled}
use vpoline.Interception.Forwarded.{KeepsFrame, intercept-forwarded}
use vpoline.Interception.Site.{called, served, site_step}
use vpoline.Interception.Transparent.{SameEffect}
use vpoline.Interception.Replaced.{IsForwarding, replaced-SameEffect}
use vpoline.Interception.Clone.{intercept-clone}
use vpoline.Maps.Print.{Mapping}
use vpoline.Startup.{System, Symbols, Process, vpoline_init}
use vpoline.Startup.SetUp.{SetUp}
use vpoline.Common.Exit.{ok}
use vpoline.Hook.Asked.{asked, Forwards, syscall_hook-Forwards}
use vpoline.Startup.Words.{IsSite, IsRunning, Words, SetUp-Words}

module _ (sys : System) (symbols : Symbols) (p : Process) (n page : ℕ) (g' : Globals)
    (ms : List Mapping) (hook : ℕ) (set_up : SetUp sys symbols p n page g' ms hook) (q : Process)
    (comes_back : vpoline_init sys symbols p ≡ some (ok q)) (k : Kernel)
    (callee : Lines.State → Lines.State) (small : symbols.asm_syscall_hook < 2 ^ 64)
    (even : symbols.asm_syscall_hook % 2 ≡ 0) where
  abbrev pub symbol : ℕ
  symbol = symbols.relocated_global_pointer

  module _ (s : State) (running : IsRunning symbol page g'.rsi.protection_size ms q s)
      (site : IsSite sys ms p.memory s.pc) (below : s.pc + 4 < 2 ^ 64)
      (room : Room symbol (called s)) where
    abbrev fetch : ℕ → ℕ
    fetch = load 4 s.mem

    words : Words sys symbols ms p.memory s
    words = SetUp-Words sys symbols p n page g' ms hook set_up q comes_back s running

    fits : Fits symbol (called s)
    fits = Room-Fits symbol (called s) room words.variable

    enters : run k fetch 1 s ≡ some (called s)
    enters = site_step k fetch s (words.site s.pc site) (omega (arith, room.below)) room.even below

    -- For a system, a process and a hook library as `SetUp` describes them, an even address of the
    -- hook entry, and the process that `__vpoline_init` comes back with: when a program whose gp,
    -- code and variable `relocated_global_pointer` are as the set-up has left them reaches what was
    -- an `ecall` in the executable ranges of libc, then a call other than rt_sigreturn, for which
    -- the hook function, asked with the number and the six arguments of the caller, returns 0, gets
    -- from there to the trampoline in one instruction, and returns behind the `ecall`, its lowest
    -- bit cleared, with what the hook function has left in `*result` in a0, every other register as
    -- it was and no system call made. Of the bytes outside the frame, those that `syscall_hook`
    -- keeps are as they were. The compiled `syscall_hook` keeps to the calling convention. Its
    -- registers and bytes are in range, and its stack has 304 bytes apart from the variable.
    pub ecall-handled :
        (function : HookFn)
        → IsCallee (some function) symbol callee
        → s.regs 17 ≢ 139
        → (asked function s.regs).ret ≡ 0
        → (u : State) × (run k fetch 1 s ≡ some (called s))
          × (intercept k fetch symbol callee 5 (called s) ≡ some u)
          × Returned callee q.gp (asked function s.regs).result (called s) u
    ecall-handled function c number handles =
        let (u, e, r) =
          intercept-handled k fetch function symbol callee c symbols.asm_syscall_hook small even
            (called s) fits words.entry words.returns number handles in
        (u, enters, e, rw (← running.global) r)

    -- For a system, a process and a hook library as `SetUp` describes them, an even address of the
    -- hook entry, and the process that `__vpoline_init` comes back with: when a program whose gp,
    -- code and variable `relocated_global_pointer` are as the set-up has left them reaches what was
    -- an `ecall` in the executable ranges of libc, then a call other than rt_sigreturn, clone and
    -- clone3, for which no hook function is set or it does not return 0, gets to the trampoline in
    -- one instruction. The kernel, which keeps the frame on the stack, is called once, with the
    -- registers of the caller but sp, gp and t0, and the call returns behind the `ecall`, its
    -- lowest bit cleared, with the result of the kernel in a0, gp at the relocated global pointer
    -- and every other register as it was. The kernel finds each byte outside the frame that
    -- `syscall_hook` keeps as it was. The compiled `syscall_hook` keeps to the calling convention.
    -- Its registers and bytes are in range, and its stack has 304 bytes apart from the variable.
    pub ecall-forwarded :
        (hook_fn : Option HookFn)
        → IsCallee hook_fn symbol callee
        → KeepsFrame k (called s)
        → s.regs 17 ≢ 139
        → s.regs 17 ≢ 220
        → s.regs 17 ≢ 435
        → Forwards hook_fn s.regs
        → (u : State) × (run k fetch 1 s ≡ some (called s))
          × (intercept k fetch symbol callee 6 (called s) ≡ some u)
          × Called k callee (λ r. (r ≢ 2) × (r ≢ 3) × (r ≢ 5)) q.gp (called s) u
    ecall-forwarded hook_fn c frame n139 n220 n435 forwarded =
        let (u, e, r) =
          intercept-forwarded k fetch hook_fn symbol callee c symbols.asm_syscall_hook small even
            (called s) fits words.entry words.returns frame n139 n220 n435
            (syscall_hook-Forwards hook_fn s.regs (s.pc + 4) forwarded) in
        (u, enters, e, rw (← running.global) r)

    -- For a system, a process and a hook library as `SetUp` describes them, an even address of the
    -- hook entry, and the process that `__vpoline_init` comes back with: when a program whose gp,
    -- code and variable `relocated_global_pointer` are as the set-up has left them reaches what was
    -- an `ecall` in the executable ranges of libc, then a clone or clone3, for which no hook
    -- function is set or it does not return 0, gets to the trampoline in one instruction. The
    -- kernel is called once, with every register of the caller but for gp, which has the address
    -- behind the `ecall`, and the call returns there, the lowest bit cleared, with the result of
    -- the kernel in a0, gp at the relocated global pointer and every other register as it was. The
    -- kernel finds each byte outside the frame that `syscall_hook` keeps as it was. The compiled
    -- `syscall_hook` keeps to the calling convention. Its registers and bytes are in range, and its
    -- stack has 304 bytes apart from the variable.
    pub ecall-clone :
        (hook_fn : Option HookFn)
        → IsCallee hook_fn symbol callee
        → (s.regs 17 ≡ 220) ⊎ (s.regs 17 ≡ 435)
        → Forwards hook_fn s.regs
        → (u : State) × (run k fetch 1 s ≡ some (called s))
          × (intercept k fetch symbol callee 5 (called s) ≡ some u)
          × Called k callee (λ r. Unit) q.gp (called s) u
    ecall-clone hook_fn c clone forwarded =
        let (u, e, r) =
          intercept-clone k fetch hook_fn symbol callee c symbols.asm_syscall_hook small even
            (called s) fits words.entry words.returns clone
            (syscall_hook-Forwards hook_fn s.regs (s.pc + 4) forwarded) in
        (u, enters, e, rw (← running.global) r)

    -- For a system, a process and a hook library as `SetUp` describes them, an even address of the
    -- hook entry, and the process that `__vpoline_init` comes back with: when a program whose gp,
    -- code and variable `relocated_global_pointer` are as the set-up has left them reaches what was
    -- an `ecall` in the executable ranges of libc, then a call other than rt_sigreturn, clone and
    -- clone3, for which no hook function is set or it does not return 0, gets over the trampoline,
    -- the hook entry and the return path to a state that the program cannot tell from the one
    -- behind the original `ecall`: the same address, registers, and memory but for the stack below
    -- sp, and one call of the kernel with the same number and arguments. This is for a compiled
    -- `syscall_hook` that keeps to the calling convention and writes only stack, and a kernel that
    -- takes a call from its registers and neither reads nor writes the stack below sp. Its
    -- registers and bytes are in range, and its stack has 304 bytes apart from the variable.
    pub ecall-transparent :
        (hook_fn : Option HookFn) (depth : ℕ)
        → IsForwarding k hook_fn symbol callee depth s
        → s.pc % 2 ≡ 0
        → (u : State) × (run k fetch 1 s ≡ some (called s))
          × (intercept k fetch symbol callee 6 (called s) ≡ some u)
          × SameEffect depth s u (served k s)
    ecall-transparent hook_fn depth forwarding place =
        replaced-SameEffect k fetch hook_fn symbol callee depth s forwarding
          symbols.asm_syscall_hook small even below place (words.site s.pc site) words.variable
          words.entry words.returns
