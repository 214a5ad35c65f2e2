-- ===== src/Startup/Running.antt =====
-- A program that runs behind `__vpoline_init`, over any number of its system calls.
use vpoline.Common.{
  ℕ, ◌+◌, ◌-◌, ◌*◌, ◌/◌, ◌%◌, ◌^◌, ◌≤◌, ◌<◌, ◌≡◌, ◌≢◌, refl, arith, false, u64, ◌⊎◌, List, Option,
  some, ◌∙◌, sym,
}
use vpoline.Common.Exit.{ok, some-inj}
use vpoline.Memory.{Memory, load}
use vpoline.Layout.{Globals}
use vpoline.Machine.{State, Kernel, run}
use vpoline.Hook.Callee.{HookFn}
use vpoline.Hook.Lines as Lines
use vpoline.Hook.Call.{IsCallee}
use vpoline.Interception.{intercept}
use vpoline.Interception.Entered.{Room, Room-Fits}
use vpoline.Interception.Forwarded.{KeepsFrame}
use vpoline.Interception.Site.{called, site_step}
use vpoline.Interception.Answered.{path_length, IsKept, Answered, intercept-Answered}
use vpoline.Maps.Print.{Mapping}
use vpoline.Startup.{System, Symbols, Process, vpoline_init}
use vpoline.Startup.SetUp.{SetUp, SetUp-Started}
use vpoline.Handler.Redirect.{placed-IsShadow}
use vpoline.Startup.Started.{IsCode}
use vpoline.Startup.Words.{IsSite, IsRunning, SetUp-Words}
use vpoline.Startup.Signal.{saved, restored}
use vpoline.Memory.Laws.{IsBytes}
use vpoline.Handler.{resumed, segfault_handler}
use vpoline.Handler.Emulate.{Context}
use vpoline.Handler.Isa.{Access, access, insn_length}
use vpoline.Handler.Handle.{IsShadow, InShadow, backup_of, insn_at}
use vpoline.Handler.Kept.{loads_gp, width, Resumed, segfault_handler-Resumed}

resumed-eq :
    {ctx ctx' : Context} {mem mem' : Memory}
    → resumed ctx mem ≡ resumed ctx' mem'
    → (ctx ≡ ctx') × (mem ≡ mem')
resumed-eq e = (cc, cc)

module _ (sys : System) (symbols : Symbols) (p : Process) (page : ℕ) (g' : Globals)
    (ms : List Mapping) (q : Process) (k : Kernel) where
  abbrev symbol : ℕ
  symbol = symbols.relocated_global_pointer

  abbrev Code : ℕ → Type 0
  Code = IsCode symbol page g'.rsi.protection_size ms

  abbrev Runs : State → Type 0
  Runs = IsRunning symbol page g'.rsi.protection_size ms q

  -- The program at what was an `ecall`, with a call other than rt_sigreturn; neither the hook entry
  -- nor the kernel writes to the code. The hook function is one for this call: what it does at
  -- another one, with another memory, may differ.
  pub record IsCall (s : State) : Type 0 where
    pub site : IsSite sys ms p.memory s.pc
    pub below : s.pc + 4 < 2 ^ 64
    pub hook_fn : Option HookFn
    pub callee : Lines.State → Lines.State
    pub convention : IsCallee hook_fn symbol callee
    pub room : Room symbol (called s)
    pub frame : KeepsFrame k (called s)
    pub number : s.regs 17 ≢ 139
    pub kept : (x : ℕ) → Code x → IsKept k callee (s.regs 2 - 304) x

  -- The program at a supported access to the execute-only pages, which does not load gp and is
  -- redirected to bytes that are not code.
  pub record IsAccess (s : State) (a : ℕ) (i : Access) : Type 0 where
    pub insn : access (insn_at (saved s) s.mem) ≡ some i
    pub bytes : IsBytes s.mem
    pub inside : InShadow q.globals.rsi a
    pub other : loads_gp i ≡ false
    pub apart :
        (x : ℕ)
        → Code x
        → (x < backup_of q.globals.rsi a) ⊎ (backup_of q.globals.rsi a + width i ≤ x)

  -- A step of the program: a system call, over its replaced `ecall`; a fault, over the handler; or
  -- work of its own that writes neither gp nor code.
  pub data Step (s u : State) : Type 0 where
    call :
        (at : IsCall s)
        → run k (load 4 s.mem) 1 s ≡ some (called s)
        → intercept k (load 4 s.mem) symbol at.callee (path_length at.hook_fn (called s)) (called s)
          ≡ some u
        → Step s u
    fault :
        (a : ℕ) (i : Access) (ctx : Context) (mem' : Memory)
        → IsAccess s a i
        → segfault_handler q.globals.rsi a (saved s) s.mem ≡ resumed ctx mem'
        → u ≡ restored s ctx mem'
        → Step s u
    work : u.regs 3 ≡ s.regs 3 → ((x : ℕ) → Code x → u.mem x ≡ s.mem x) → Step s u

  pub data Steps (s : State) : State → Type 0 where
    start : Steps s s
    next : (t u : State) → Steps s t → Step t u → Steps s u

  -- What the program cannot do by itself.
  pub data Due (s : State) : Type 0 where
    by_hook : IsCall s → Due s
    by_handler : (a : ℕ) (i : Access) → IsAccess s a i → Due s

  -- The address behind the `ecall`, its lowest bit cleared, or behind the access.
  abbrev pub behind : (s : State) → Due s → ℕ
  behind s (Due.by_hook at) = (s.pc + 4) / 2 * 2
  behind s (Due.by_handler a i at) = u64 (s.pc + insn_length (insn_at (saved s) s.mem))

  module _ (n hook : ℕ) (set_up : SetUp sys symbols p n page g' ms hook)
      (comes_back : vpoline_init sys symbols p ≡ some (ok q))
      (small : symbols.asm_syscall_hook < 2 ^ 64) (even : symbols.asm_syscall_hook % 2 ≡ 0) where
    shadow : IsShadow q.globals.rsi
    shadow =
        let started = SetUp-Started sys symbols p n page g' ms hook set_up q comes_back in
        rw started.globals_set (placed-IsShadow set_up.placed)

    -- A call comes back.
    answer :
        (s : State)
        → Runs s
        → (at : IsCall s)
        → (u : State) × Step s u
          × (intercept k
                (load 4 s.mem)
                symbol
                at.callee
                (path_length at.hook_fn (called s))
                (called s)
              ≡ some u)
          × Answered k at.callee (called s) u
    answer s running at =
        let w = SetUp-Words sys symbols p n page g' ms hook set_up q comes_back s running in
        let fits = Room-Fits symbol (called s) at.room w.variable in
        let enters =
          site_step k (load 4 s.mem) s (w.site s.pc at.site) (omega (arith, fits.below)) fits.even
            at.below in
        let (u, e, a) =
          intercept-Answered k (load 4 s.mem) at.hook_fn symbol at.callee at.convention
            symbols.asm_syscall_hook small even (called s) fits w.entry w.returns at.frame
            at.number in
        (u, Step.call at enters e, e, a)

    Answered-IsRunning :
        (s u : State) → Runs s → (at : IsCall s) → Answered k at.callee (called s) u → Runs u
    Answered-IsRunning s u running at a = record {
      global = a.global ∙ running.global;
      code = λ x code. a.kept x (at.kept x code) ∙ running.code x code;
    }

    -- A fault comes back.
    redirect :
        (s : State) (a : ℕ) (i : Access)
        → IsAccess s a i
        → (ctx : Context) × (mem' : Memory) × (segfault_handler q.globals.rsi a (saved s) s.mem
            ≡ resumed ctx mem')
          × Resumed q.globals.rsi a i (saved s) s.mem ctx mem'
    redirect s a i at =
        segfault_handler-Resumed q.globals.rsi shadow a (saved s) s.mem at.bytes i at.inside at.insn
          at.other

    Resumed-IsRunning :
        (s : State) (a : ℕ) (i : Access) (ctx : Context) (mem' : Memory)
        → Runs s
        → IsAccess s a i
        → Resumed q.globals.rsi a i (saved s) s.mem ctx mem'
        → Runs (restored s ctx mem')
    Resumed-IsRunning s a i ctx mem' running at r = record {
      global = r.global ∙ running.global;
      code = λ x code. r.others x (at.apart x code) ∙ running.code x code;
    }

    Step-IsRunning : (s u : State) → Runs s → Step s u → Runs u
    Step-IsRunning s u running (Step.work gp code) = record {
      global = gp ∙ running.global;
      code = λ x is. code x is ∙ running.code x is;
    }
    Step-IsRunning s u running (Step.fault a i ctx mem' at e back) =
        let (ctx1, mem1, e1, r) = redirect s a i at in
        let (same_context, same_memory) = resumed-eq (sym e1 ∙ e) in
        rw back (Resumed-IsRunning s a i ctx mem' running at (rw (← same_context, ← same_memory) r))
    Step-IsRunning s u running (Step.call at enters e) =
        let (u', _, e', a) = answer s running at in
        let same : u' ≡ u = some-inj (sym e' ∙ e) in
        rw (← same) (Answered-IsRunning s u' running at a)

    pub Steps-IsRunning : (s u : State) → Runs s → Steps s u → Runs u
    Steps-IsRunning s _ running Steps.start = running
    Steps-IsRunning s _ running (Steps.next t u steps step) =
        Step-IsRunning t u (Steps-IsRunning s t running steps) step

    -- What is due is done.
    step_due :
        (s : State)
        → Runs s
        → (due : Due s) → (u : State) × Step s u × Runs u × (u.pc ≡ behind s due)
    step_due s running (Due.by_hook at) =
        let (u, step, _, a) = answer s running at in
        (u, step, Answered-IsRunning s u running at a, a.address)
    step_due s running (Due.by_handler a i at) =
        let (ctx, mem', e, r) = redirect s a i at in
        (
          restored s ctx mem',
          Step.fault a i ctx mem' at e refl,
          Resumed-IsRunning s a i ctx mem' running at r,
          r.address,
        )

    -- For a system, a process and a hook library as `SetUp` describes them, an even address of the
    -- hook entry, and the process that `__vpoline_init` comes back with: when a program starts with
    -- gp, the code and the variable `relocated_global_pointer` as the set-up has left them, then
    -- they are so after any number of its steps, each a system call over its replaced `ecall`, a
    -- redirected access, or work that writes none of them; and a system call other than
    -- rt_sigreturn, or a supported access to the execute-only pages that does not load gp, takes
    -- its next step, which comes back behind its instruction. At each call the compiled
    -- `syscall_hook` keeps to the calling convention, for the hook function of this call; the frame
    -- of 304 bytes is apart from the code and the variable, and neither the hook nor the kernel
    -- writes to them, nor the kernel to the frame. Accesses are not redirected to code or variable.
    -- Registers and bytes are in range.
    pub Steps-answered :
        (s t : State)
        → Runs s
        → Steps s t
        → (due : Due t) → Runs t × ((u : State) × Step t u × Runs u × (u.pc ≡ behind t due))
    Steps-answered s t running steps due =
        let still = Steps-IsRunning s t running steps in (still, step_due t still due)
