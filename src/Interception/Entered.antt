-- ===== src/Interception/Entered.antt =====
-- From the replaced `ecall` to the jump into a return path, for every call but rt_sigreturn.
use vpoline.Common.{
  ℕ, ◌+◌, ◌-◌, ◌%◌, ◌^◌, ◌≤◌, ◌<◌, ◌≡◌, ◌≢◌, refl, arith, some, Option, ◌∙◌, ap, sym, ◌⊎◌,
}
use vpoline.Memory.{load}
use vpoline.Memory.Laws.{IsBytes}
use vpoline.Machine.{State, Kernel, run}
use vpoline.Patcher.{trampoline}
use vpoline.Patcher.Words.{Holds}
use vpoline.Patcher.Trampoline.{Enters, trampoline-Enters}
use vpoline.Hook.{run_hook}
use vpoline.Hook.Callee.{HookFn, WrapperRet}
use vpoline.Hook.Lines as Lines
use vpoline.Hook.Call.{IsCallee}
use vpoline.Hook.Leave.{return_offset}
use vpoline.Hook.Context.{Prepared, decision, run_hook-Prepared}
use vpoline.Interception.{hook_state, intercept}
use vpoline.Interception.Returned.{saved-IsBytes, entry_sp, same_decision, entry_global}

-- The addresses fit: the stack has room for the frame, apart from `relocated_global_pointer`, which
-- holds the address of the trampoline, even and with room around it.
pub record Fits (symbol : ℕ) (s : State) : Type 0 where
  pub words : (r : ℕ) → s.regs r < 2 ^ 64
  pub bytes : IsBytes s.mem
  pub stack : 304 ≤ s.regs 2
  pub apart : (symbol + 8 ≤ s.regs 2 - 304) ⊎ (s.regs 2 ≤ symbol)
  pub small : symbol + 8 ≤ 2 ^ 64
  pub global : load 8 s.mem symbol ≡ s.pc
  pub even : s.pc % 2 ≡ 0
  pub enough : 56 ≤ s.pc
  pub below : s.pc + 80 < 2 ^ 64

-- The same without the value of the variable.
pub record Room (symbol : ℕ) (s : State) : Type 0 where
  pub words : (r : ℕ) → s.regs r < 2 ^ 64
  pub bytes : IsBytes s.mem
  pub stack : 304 ≤ s.regs 2
  pub apart : (symbol + 8 ≤ s.regs 2 - 304) ⊎ (s.regs 2 ≤ symbol)
  pub small : symbol + 8 ≤ 2 ^ 64
  pub even : s.pc % 2 ≡ 0
  pub enough : 56 ≤ s.pc
  pub below : s.pc + 80 < 2 ^ 64

pub Room-Fits :
    (symbol : ℕ) (s : State) → Room symbol s → load 8 s.mem symbol ≡ s.pc → Fits symbol s
Room-Fits symbol s r e = record {
  words = r.words;
  bytes = r.bytes;
  stack = r.stack;
  apart = r.apart;
  small = r.small;
  global = e;
  even = r.even;
  enough = r.enough;
  below = r.below;
}

Prepared-cast :
    {d : WrapperRet} {g : ℕ}
    → (callee : Lines.State → Lines.State) (d' : WrapperRet) (g' : ℕ) (s t : Lines.State) → d ≡ d'
    → g ≡ g'
    → Prepared callee d g s t
    → Prepared callee d' g' s t
Prepared-cast callee d' g' s t e e' p = rw (sym e, sym e') p

pub intercept_steps :
    (k : Kernel) (fetch : ℕ → ℕ) (symbol : ℕ) (callee : Lines.State → Lines.State) (n : ℕ)
    (s t : State) (h : Lines.State) (a : ℕ)
    → run k fetch 20 s ≡ some t
    → run_hook symbol callee (hook_state t) ≡ Lines.jumped a h
    → intercept k fetch symbol callee n s
      ≡ run k fetch n (record { pc = a; regs = h.regs; mem = h.mem; calls = t.calls })
unfolding intercept
intercept_steps k fetch symbol callee n s t h a e e' = rw (intercept, e, e') refl

-- The trampoline and the hook entry together: where they jump to, and in which state.
pub record Entered (k : Kernel) (fetch : ℕ → ℕ) (symbol : ℕ) (callee : Lines.State → Lines.State)
    (dst : ℕ) (decided : WrapperRet) (s : State) : Type 0 where
  pub entry : State
  pub arrives : run k fetch 20 s ≡ some entry
  pub enters : Enters dst s entry
  pub exit_state : Lines.State
  pub jumps :
      run_hook symbol callee (hook_state entry)
      ≡ Lines.jumped (s.pc - return_offset decided.handled (s.regs 17)) exit_state
  pub prepared : Prepared callee decided s.pc (hook_state entry) exit_state

pub enter :
    (k : Kernel) (fetch : ℕ → ℕ) (hook_fn : Option HookFn) (symbol : ℕ)
    (callee : Lines.State → Lines.State)
    → IsCallee hook_fn symbol callee
    → (dst : ℕ) → dst < 2 ^ 64
    → dst % 2 ≡ 0
    → (s : State) → Fits symbol s
    → Holds fetch s.pc (trampoline dst)
    → s.regs 17 ≢ 139
    → Entered k fetch symbol callee dst (decision hook_fn (hook_state s)) s
enter k fetch hook_fn symbol callee c dst small even s f entry n =
    let (t, arrives, enters) = trampoline-Enters k fetch dst s small even f.below entry in
    let sp = entry_sp s t dst symbol enters f.words f.stack in
    let same = same_decision s t dst symbol enters f.words f.stack hook_fn in
    let global : load 8 t.mem symbol ≡ s.pc =
      entry_global s t dst symbol enters f.words f.stack f.apart ∙ f.global in
    let bytes : IsBytes t.mem = rw enters.stack (saved-IsBytes s f.bytes) in
    let a7 : t.regs 17 ≡ s.regs 17 =
      enters.kept 17 (omega arith) (omega arith) (omega arith) (omega arith) (omega arith) in
    let (h, jumps, p) =
      run_hook-Prepared hook_fn symbol callee c (hook_state t) (enters.words f.words) bytes
        (omega (arith, sp, f.words 2)) f.small (ground (arith, sp, f.apart, f.stack))
        (λ e. n (sym a7 ∙ e)) (omega (arith, global, f.even)) (omega (arith, global, f.enough)) in
    let decided : WrapperRet = decision hook_fn (hook_state s) in
    let offset : load 8 t.mem symbol
          - return_offset (decision hook_fn (hook_state t)).handled (t.regs 17)
        ≡ s.pc - return_offset decided.handled (s.regs 17) =
      rw (global, ap (λ (w : WrapperRet). w.handled) same, a7) refl in
    record {
      entry = t;
      arrives = arrives;
      enters = enters;
      exit_state = h;
      jumps = jumps ∙ ap (λ a. Lines.jumped a h) offset;
      prepared = Prepared-cast callee decided s.pc (hook_state t) h same global p;
    }
