-- ===== src/Startup/SetUp.antt =====
-- What `__vpoline_init` needs of the system and the process, and what it leaves when it comes back.
use vpoline.Common.{ℕ, ◌+◌, ◌%◌, ◌^◌, ◌≤◌, ◌≡◌, true, ◌&&◌, List, some, ◌∙◌, sym, ◌⊎◌, All}
use vpoline.Common.Exit.{ok, ok-inj, some-inj}
use vpoline.Layout.{Globals}
use vpoline.Layout.Placement.{IsPlaced}
use vpoline.Rewrite.Sweep.{IsCapstone}
use vpoline.Maps.Print.{Mapping, IsMapping, print_file}
use vpoline.Maps.Patched.{Sorted}
use vpoline.Startup.{with_gp, System, Symbols, Process, vpoline_init}
use vpoline.Startup.Placed.{IsGranting}
use vpoline.Startup.Kept.{IsApart}
use vpoline.Startup.Library.{IsLibrary}
use vpoline.Startup.Started.{IsCode, Started, vpoline_init-Started}

-- A system with pages of `2 ^ k` bytes that grants what the set-up asks for, with a mapping of
-- `mmap` at `page`; a global pointer in neither the first nor the last page, at least 56 bytes
-- behind the start of its page and 80 before its end; a capstone that starts and decodes only the
-- bytes it is given, to instructions that are not empty and lie in them, with four bytes for
-- `ecall`; sorted lines of /proc/self/maps, each with addresses below 2^63 and at most 4000 bytes
-- behind the permissions; the mapping, the variable `relocated_global_pointer` and the executable
-- ranges of libc apart from each other; and a hook library that loads and does not write to them.
pub record SetUp (sys : System) (symbols : Symbols) (p : Process) (k page : ℕ) (g' : Globals)
    (ms : List Mapping) (hook : ℕ) : Type 1 where
  pub granting : IsGranting k sys
  pub placed : IsPlaced k (with_gp p) sys.mmap page g'
  pub lower : 56 ≤ p.gp % 2 ^ k
  pub upper : p.gp % 2 ^ k + 80 ≤ 2 ^ k
  pub capstone : IsCapstone sys.capstone
  pub ready :
      (sys.capstone.cs_open && sys.capstone.cs_option_detail && sys.capstone.cs_option_mem
        && sys.capstone.cs_malloc)
      ≡ true
  pub file : sys.maps ≡ some (print_file ms)
  pub lines : All IsMapping ms
  pub sorted : Sorted ms
  pub apart : All (IsApart symbols.relocated_global_pointer page g'.rsi.protection_size) ms
  pub other :
      (symbols.relocated_global_pointer + 8 ≤ page)
      ⊎ (page + g'.rsi.protection_size ≤ symbols.relocated_global_pointer)
  pub library :
      IsLibrary sys symbols
        (IsCode symbols.relocated_global_pointer page g'.rsi.protection_size ms)
        hook

-- The one process that the set-up comes back with.
pub SetUp-Started :
    (sys : System) (symbols : Symbols) (p : Process) (k page : ℕ) (g' : Globals) (ms : List Mapping)
    (hook : ℕ)
    → SetUp sys symbols p k page g' ms hook
    → (q : Process) → vpoline_init sys symbols p ≡ some (ok q)
    → Started sys symbols page (p.gp % 2 ^ k) hook g' ms p.memory q
SetUp-Started sys symbols p k page g' ms hook t q e =
    let (q', e', started) =
      vpoline_init-Started sys symbols p k page g' t.granting t.placed t.lower t.upper t.capstone
        t.ready ms t.file t.lines t.sorted t.apart t.other hook t.library in
    let same : q' ≡ q = ok-inj (some-inj (sym e' ∙ e)) in rw (← same) started
