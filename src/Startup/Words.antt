-- ===== src/Startup/Words.antt =====
-- The words of code that a program meets behind the set-up, in a memory that agrees on the code.
use mathlib.Core.List.{Memᴰ}
use vpoline.Common.{
  some, sym, ◌%◌, ◌^◌, ℕ, ◌+◌, ◌-◌, ◌≤◌, ◌<◌, ◌≡◌, arith, true, List, ◌∙◌, inl, inr, All-Mem,
}
use vpoline.Memory.{Memory, load}
use vpoline.Memory.Laws.{load_ext}
use vpoline.Layout.{Globals}
use vpoline.Patcher.{trampoline, return_sequence}
use vpoline.Patcher.Words.{Holds}
use vpoline.Patcher.Installed.{Holds-between, length-trampoline}
use vpoline.Rewrite.{jalr_gp}
use vpoline.Rewrite.Sweep.{Sweeps}
use vpoline.Rewrite.Unique.{Sweeps-unique}
use vpoline.Maps.Print.{Mapping}
use vpoline.Maps.Line.{is_target}
use vpoline.Maps.Patched.{Patched}
use vpoline.Startup.{System, Symbols, Process, vpoline_init}
use vpoline.Startup.Kept.{inside}
use vpoline.Startup.SetUp.{SetUp, SetUp-Started}
use vpoline.Machine.{State}
use vpoline.Layout.Placement.{placed_fields}
use vpoline.Common.Exit.{ok}
use vpoline.Startup.Started.{IsCode, Started}

-- An `ecall` that the linear sweep of the first memory finds in an executable range of libc.
pub record IsSite (sys : System) (ms : List Mapping) (mem : Memory) (a : ℕ) : Type 0 where
  pub range : Mapping
  pub listed : Memᴰ range ms
  pub target : is_target range ≡ true
  pub sites : List ℕ
  pub swept : Sweeps sys.capstone mem (range.to_address - 1) range.from_address sites
  pub found : Memᴰ a sites

-- The site in a memory that agrees on the ranges of libc.
pub site_kept :
    (sys : System) (symbols : Symbols) (page offset hook : ℕ) (g : Globals) (ms : List Mapping)
    (mem : Memory) (q : Process)
    → Started sys symbols page offset hook g ms mem q
    → (m : Memory)
    → ((r : Mapping)
        → Memᴰ r ms
        → is_target r ≡ true
        → (x : ℕ) → r.from_address ≤ x
        → x < r.to_address
        → m x ≡ q.memory x)
    → (a : ℕ) → IsSite sys ms mem a
    → load 4 m a ≡ jalr_gp
site_kept sys symbols page offset hook g ms mem q started m same a i =
    let r = i.range in
    let patched : Patched sys.capstone mem q.memory r =
      All-Mem _ ms started.patched i.listed i.target in
    let sites =
      Sweeps-unique sys.capstone mem (r.to_address - 1) r.from_address i.sites patched.sites i.swept
        patched.swept in
    let found : Memᴰ a patched.sites = rw (← sites) i.found in
    let inside = patched.inside a found in
    load_ext 4 m q.memory a
      (λ x low high. same r i.listed i.target x (omega (arith, inside)) (omega (arith, inside)))
    ∙ patched.replaced a found

-- A program that runs in the process: gp, the code and the variable are as the set-up has left them.
pub record IsRunning (variable page size : ℕ) (ms : List Mapping) (q : Process) (s : State)
    : Type 0 where
  pub global : s.regs 3 ≡ q.gp
  pub code : (x : ℕ) → IsCode variable page size ms x → s.mem x ≡ q.memory x

-- What it meets: the replaced `ecall`s, the code around gp, and the variable with the value of gp.
pub record Words (sys : System) (symbols : Symbols) (ms : List Mapping) (mem : Memory) (s : State)
    : Type 0 where
  pub site : (a : ℕ) → IsSite sys ms mem a → load 4 s.mem a ≡ jalr_gp
  pub entry : Holds (load 4 s.mem) (s.regs 3) (trampoline symbols.asm_syscall_hook)
  pub returns : Holds (load 4 s.mem) (s.regs 3 - 56) return_sequence
  pub variable : load 8 s.mem symbols.relocated_global_pointer ≡ s.regs 3

pub SetUp-Words :
    (sys : System) (symbols : Symbols) (p : Process) (k page : ℕ) (g' : Globals) (ms : List Mapping)
    (hook : ℕ)
    → SetUp sys symbols p k page g' ms hook
    → (q : Process) → vpoline_init sys symbols p ≡ some (ok q)
    → (s : State) → IsRunning symbols.relocated_global_pointer page g'.rsi.protection_size ms q s
    → Words sys symbols ms p.memory s
SetUp-Words sys symbols p k page g' ms hook t q e s running =
    let started = SetUp-Started sys symbols p k page g' ms hook t q e in
    let words = length-trampoline symbols.asm_syscall_hook in
    let offset : ℕ = p.gp % 2 ^ k in
    let lower : 56 ≤ offset = t.lower in
    let place = placed_fields t.placed in
    let room = inside sys symbols p k page g' t.granting t.placed t.lower t.upper in
    let upper : page + offset + 80 ≤ page + g'.rsi.protection_size = omega (arith, room, place) in
    let gp : s.regs 3 ≡ page + offset = running.global ∙ started.gp_set in
    record {
      site =
          site_kept sys symbols page offset hook g' ms p.memory q started s.mem
            (λ r e target x low high. running.code x (inr (r, e, target, low, high)));
      entry = rw gp (
          Holds-between q.memory s.mem (page + offset) (trampoline symbols.asm_syscall_hook)
            (λ x low high.
              running.code x (inl (inl (omega arith, omega (arith, words, upper, high)))))
            started.entry);
      returns = rw gp (
          Holds-between q.memory s.mem (page + offset - 56) return_sequence
            (λ x low high.
              running.code x (inl (inl (omega (arith, lower, low), omega (arith, upper, high)))))
            started.returns);
      variable =
          load_ext 8 s.mem q.memory symbols.relocated_global_pointer
            (λ x low high. running.code x (inl (inr (low, high))))
          ∙ started.variable
          ∙ sym gp;
    }
