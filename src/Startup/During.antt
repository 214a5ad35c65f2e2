-- ===== src/Startup/During.antt =====
-- A system call of libc while `__vpoline_init` is replacing the `ecall`s of libc.
use mathlib.Core.List.{Memᴰ}
use vpoline.Common.{
  ℕ, ◌+◌, ◌-◌, ◌%◌, ◌^◌, ◌≤◌, ◌<◌, ◌≡◌, arith, true, ◌&&◌, List, none, some, ◌∙◌, sym, ap, inl, inr,
  ◌⊎◌, All, All-Mem,
}
use vpoline.Common.Exit.{ok, ok-inj}
use vpoline.Memory.{Memory, load}
use vpoline.Layout.{Globals}
use vpoline.Layout.Placement.{IsPlaced}
use vpoline.Machine.{State, Kernel, run}
use vpoline.Patcher.{Written, trampoline, return_sequence}
use vpoline.Patcher.Words.{Holds}
use vpoline.Patcher.Installed.{Installed}
use vpoline.Hook.Lines as Lines
use vpoline.Interception.{intercept}
use vpoline.Interception.Site.{called, served, ecall_step}
use vpoline.Interception.Transparent.{SameEffect, SameEffect-refl}
use vpoline.Interception.Replaced.{IsForwarding, replaced-SameEffect}
use vpoline.Rewrite.{Capstone, CsInsn, jalr_gp}
use vpoline.Rewrite.Sweep.{IsCapstone, Sweeps}
use vpoline.Rewrite.Unique.{Sweeps-unique}
use vpoline.Maps.Print.{Mapping, IsMapping}
use vpoline.Maps.Patched.{Sorted, Sweeps-ext}
use vpoline.Maps.Moments.{Moments, Underway, AllUnderway}
use vpoline.Maps.Underway.{Moments-AllUnderway}
use vpoline.Startup.{with_gp, with_variable, System, Symbols, Process, install}
use vpoline.Startup.Placed.{prepared, IsGranting, gp_place, install-Installed}
use vpoline.Startup.Kept.{
  IsApart, Apart-mapping, Apart-variable, variable_kept, untouched, returns_kept, entry_kept,
}
use vpoline.Startup.Started.{IsCode}
use vpoline.Startup.Words.{IsSite}
use vpoline.Memory.Laws.{load_ext}
use Sweeps.{finished, skipped, passed, found}
use Memᴰ.{head, tail}

-- A decoder that finds `ecall` only in the word of `ecall`.
abbrev pub IsDecoder : Capstone → Type 0
IsDecoder cs =
    (m : Memory) (a size : ℕ) (i : CsInsn)
    → cs.cs_disasm_iter m a size ≡ some i
    → i.is_ecall ≡ true
    → load 4 m a ≡ 0x73

Sweeps-word :
    (cs : Capstone)
    → IsDecoder cs
    → (m : Memory) (last a : ℕ) (l : List ℕ) → Sweeps cs m last a l
    → (b : ℕ) → Memᴰ b l
    → load 4 m b ≡ 0x73
Sweeps-word cs is m last a _ (finished _ past) b e = elim e [ ]
Sweeps-word cs is m last a l (skipped _ _ le gap s) b e = Sweeps-word cs is m last (a + 1) l s b e
Sweeps-word cs is m last a l (passed _ i _ le insn other s) b e =
    Sweeps-word cs is m last (a + i.size) l s b e
Sweeps-word cs is m last a _ (found _ i l le insn call s) b (head e) =
    ap (load 4 m) e ∙ is m a (last + 1 - a) i insn call
Sweeps-word cs is m last a _ (found _ i l le insn call s) b (tail e) =
    Sweeps-word cs is m last (a + i.size) l s b e

module _ (sys : System) (symbols : Symbols) (p : Process) (n page : ℕ) (g' : Globals)
    (is : IsGranting n sys) (placed : IsPlaced n (with_gp p) sys.mmap page g')
    (lower : 56 ≤ p.gp % 2 ^ n) (upper : p.gp % 2 ^ n + 80 ≤ 2 ^ n)
    (capstone : IsCapstone sys.capstone) (decoder : IsDecoder sys.capstone) (ms : List Mapping)
    (h : All IsMapping ms)
    (apart : All (IsApart symbols.relocated_global_pointer page g'.rsi.protection_size) ms) where
  abbrev variable : ℕ
  variable = symbols.relocated_global_pointer

  -- In the middle of the work, the site has the old word or the new one.
  site_moment :
      (w : Written)
      → Installed symbols.asm_syscall_hook g'.rsi (with_variable symbols g' p.memory) w
      → (mem : Memory) → AllUnderway sys.capstone ms w.mem mem
      → (memory : Memory)
      → ((x : ℕ) → IsCode variable page g'.rsi.protection_size ms x → memory x ≡ mem x)
      → (a : ℕ) → IsSite sys ms p.memory a
      → (load 4 memory a ≡ jalr_gp) ⊎ (load 4 memory a ≡ 0x73)
  site_moment w i mem all memory agree a site =
      let m = site.range in
      let under : Underway sys.capstone w.mem mem m =
        All-Mem _ ms all.ranges site.listed site.target in
      let mapping : IsMapping m = All-Mem IsMapping ms h site.listed in
      let le : m.from_address < m.to_address = mapping.ordered in
      let swept : Sweeps sys.capstone w.mem (m.to_address - 1) m.from_address site.sites =
        Sweeps-ext sys.capstone capstone p.memory w.mem (m.to_address - 1) m.from_address site.sites
          (λ x low high. sym (
            untouched sys symbols p n page g' is placed lower upper w i m
              (All-Mem (IsApart variable page g'.rsi.protection_size) ms apart site.listed)
              site.target x low (omega arith)))
          site.swept in
      let same =
        Sweeps-unique sys.capstone w.mem (m.to_address - 1) m.from_address site.sites under.sites
          swept under.swept in
      let word =
        Sweeps-word sys.capstone decoder w.mem (m.to_address - 1) m.from_address site.sites swept a
          site.found in
      let found : Memᴰ a under.sites = rw (← same) site.found in
      let range = under.inside a found in
      let seen : load 4 memory a ≡ load 4 mem a = load_ext 4 memory mem a (λ x low high.
        agree x (inr (m, site.listed, site.target, omega (arith, range), omega (arith, range)))) in
      elim (under.either a found) [ inl new ↦ inl (seen ∙ new) | inr old ↦ inr (seen ∙ old ∙ word) ]

  module _
      (ready : (sys.capstone.cs_open && sys.capstone.cs_option_detail && sys.capstone.cs_option_mem
          && sys.capstone.cs_malloc)
        ≡ true)
      (sorted : Sorted ms)
      (other : (variable + 8 ≤ page) ⊎ (page + g'.rsi.protection_size ≤ variable)) where
    -- A memory that agrees on code and variable with one in the middle of the work: the two words
    -- of a site, the generated code, and the variable.
    moment_words :
        (w : Written)
        → Installed symbols.asm_syscall_hook g'.rsi (with_variable symbols g' p.memory) w
        → (mem : Memory) → Moments sys.capstone sys.mprotect ms w.mem mem
        → (m : Memory) → ((x : ℕ) → IsCode variable page g'.rsi.protection_size ms x → m x ≡ mem x)
        → (a : ℕ) → IsSite sys ms p.memory a
        → ((load 4 m a ≡ jalr_gp) ⊎ (load 4 m a ≡ 0x73))
          × Holds (load 4 m) g'.rsi.relocated_gp (trampoline symbols.asm_syscall_hook)
          × Holds (load 4 m) (g'.rsi.relocated_gp - 56) return_sequence
          × (load 8 m variable ≡ g'.rsi.relocated_gp)
    moment_words w i mem moment m agree a site =
        let all =
          Moments-AllUnderway sys.capstone capstone sys.mprotect ready is.granted ms h sorted w.mem
            mem moment in
        let same : (x : ℕ) → page ≤ x → x < page + g'.rsi.protection_size → m x ≡ w.mem x =
          λ x low high.
            agree x (inl (inl (low, high)))
            ∙ all.elsewhere x
                (Apart-mapping sys symbols p n page g' is placed lower upper ms apart x low high) in
        let word : (x : ℕ) → variable ≤ x → x < variable + 8 → m x ≡ w.mem x = λ x low high.
          agree x (inl (inr (low, high)))
          ∙ all.elsewhere x
              (Apart-variable sys symbols p n page g' is placed lower upper ms apart x low high) in
        let start : g'.rsi.relocated_gp - 56 ≡ g'.rsi.start_addr =
          omega (arith, gp_place sys symbols p n page g' is placed) in
        (
          site_moment w i mem all m agree a site,
          entry_kept sys symbols p n page g' is placed lower upper w i m same,
          rw start (returns_kept sys symbols p n page g' is placed lower upper w i m same),
          variable_kept sys symbols p n page g' is placed lower upper w i other m word,
        )

    -- While `__vpoline_init` is replacing the `ecall`s of libc, at any moment between two mappings
    -- or two passes of the loop: when a program with the relocated global pointer in gp, whose
    -- memory agrees with the one of that moment on the new mapping, the variable
    -- `relocated_global_pointer` and the executable ranges of libc, reaches an `ecall` of these
    -- ranges with a call other than rt_sigreturn, clone and clone3, then it gets, in one
    -- instruction or over the trampoline, the hook entry and the return path, to a state that it
    -- cannot tell from the one behind the original `ecall`: the same address, registers, and memory
    -- but for the stack below sp, and one call of the kernel with the same number and arguments. No
    -- hook function is set yet. This is for a system with pages of `2 ^ n` bytes that grants what
    -- the set-up asks for, a mapping of `mmap`, a global pointer in neither the first nor the last
    -- page, at least 56 bytes behind the start of its page and 80 before its end, the mapping, the
    -- variable and the executable ranges of libc apart from each other, a capstone that starts and
    -- decodes only the bytes it is given, to instructions that are not empty and lie in them,
    -- `ecall` only from its four bytes, sorted lines of the file, each with addresses below 2^63,
    -- an even address of the hook entry, a compiled `syscall_hook` that keeps to the calling
    -- convention and writes only stack, and a kernel that takes a call from its registers and
    -- neither reads nor writes the stack below sp. Registers and bytes are in range, and the stack
    -- has 304 bytes apart from the variable.
    pub ecall-during :
        (q : Process)
        → install sys symbols p ≡ ok q
        → (mem : Memory) → Moments sys.capstone sys.mprotect ms q.memory mem
        → (k : Kernel) (callee : Lines.State → Lines.State) (depth : ℕ) (s : State)
        → IsForwarding k none variable callee depth s
        → symbols.asm_syscall_hook < 2 ^ 64
        → symbols.asm_syscall_hook % 2 ≡ 0
        → IsSite sys ms p.memory s.pc
        → s.regs 3 ≡ q.gp
        → ((x : ℕ) → IsCode variable page g'.rsi.protection_size ms x → s.mem x ≡ mem x)
        → s.pc + 4 < 2 ^ 64
        → s.pc % 2 ≡ 0
        → (u : State) × ((run k (load 4 s.mem) 1 s ≡ some u)
            ⊎ ((run k (load 4 s.mem) 1 s ≡ some (called s))
                × (intercept k (load 4 s.mem) variable callee 6 (called s) ≡ some u)))
          × SameEffect depth s u (served k s)
    ecall-during q e mem moment k callee depth s f small even site global agree below place =
        let (w, e', i) = install-Installed sys symbols p n page g' is placed in
        let here : q ≡ prepared symbols p g' w.mem = ok-inj (sym e ∙ e') in
        let from : q.memory ≡ w.mem = ap (λ (o : Process). o.memory) here in
        let moment' : Moments sys.capstone sys.mprotect ms w.mem mem = rw (← from) moment in
        let gp : s.regs 3 ≡ g'.rsi.relocated_gp = global ∙ ap (λ (o : Process). o.gp) here in
        let (word, entry, returns, value) = moment_words w i mem moment' s.mem agree s.pc site in
        elim word [
          | inl new ↦
              let (u, first, rest, same) =
                replaced-SameEffect k (load 4 s.mem) none variable callee depth s f
                  symbols.asm_syscall_hook small even below place new (value ∙ sym gp) (rw gp entry)
                  (rw gp returns) in
              (u, inr (first, rest), same)
          | inr old ↦
              (served k s, inl (ecall_step k (load 4 s.mem) s old below), SameEffect-refl k depth s)
        ]
