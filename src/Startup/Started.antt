-- ===== src/Startup/Started.antt =====
-- `__vpoline_init` with a hook library, from the first value of gp to the patched libc.
use mathlib.Core.List.{Memᴰ}
use vpoline.Common.{
  ℕ, ◌+◌, ◌-◌, ◌%◌, ◌^◌, ◌≤◌, ◌<◌, ◌≡◌, refl, arith, true, ◌&&◌, List, some, ◌∙◌, inl, inr, ◌⊎◌,
  All, All-Mem, All-of_Mem,
}
use vpoline.Common.Exit.{ok}
use vpoline.Memory.{Memory, load}
use vpoline.Layout.{Globals}
use vpoline.Layout.Placement.{IsPlaced, placed_fields}
use vpoline.Patcher.{Written, trampoline, return_sequence}
use vpoline.Patcher.Words.{Holds}
use vpoline.Patcher.Installed.{Installed}
use vpoline.Text.{Bytes, codes}
use vpoline.Rewrite.Sweep.{IsCapstone}
use vpoline.Maps.{rewrite_code}
use vpoline.Maps.Print.{Mapping, IsMapping, print_file}
use vpoline.Maps.Line.{is_target}
use vpoline.Maps.Patched.{
  Patched, AllPatched, Sorted, Patched-before, Patched-after, rewrite_code-AllPatched,
}
use vpoline.Startup.{
  with_gp, with_variable, handler_flags, System, Symbols, Process, StartMain, load_hook_lib,
  install, vpoline_init, libc_start_main,
}
use vpoline.Startup.Placed.{prepared, IsGranting, install-Installed}
use vpoline.Startup.Kept.{
  IsApart, inside, Apart-mapping, Apart-variable, variable_kept, untouched, returns_kept,
  entry_kept,
}
use vpoline.Startup.Library.{IsLibrary, load_hook_lib-IsLibrary}

-- The bytes that the set-up writes and that the hook entry relies on: its own mapping, the variable
-- `relocated_global_pointer`, and the executable ranges of libc.
abbrev pub IsCode : (variable page size : ℕ) → List Mapping → ℕ → Type 0
IsCode variable page size ms x =
    (((page ≤ x) × (x < page + size)) ⊎ ((variable ≤ x) × (x < variable + 8)))
    ⊎ ((m : Mapping) × Memᴰ m ms × (is_target m ≡ true) × (m.from_address ≤ x) × (x < m.to_address))

-- The process behind `__vpoline_init`, against the memory before it: gp is the relocated global
-- pointer, at its distance from the page, and the global variables are `g`; the handler is
-- installed, the function of the library set; `relocated_global_pointer` has the value of gp; the
-- return sequence and the trampoline stand around gp, and every executable range of libc is
-- patched. Whatever gp is when the C start code calls `__libc_start_main`, the next function of
-- this name starts with the process as it was left.
pub record Started (sys : System) (symbols : Symbols) (page offset hook : ℕ) (g : Globals)
    (ms : List Mapping) (mem : Memory) (q : Process) : Type 1 where
  pub globals_set : q.globals ≡ g
  pub gp_set : q.gp ≡ page + offset
  pub handler :
      q.signals 11
      ≡ some (record { sa_flags = handler_flags; sa_sigaction = symbols.segfault_handler })
  pub hook_set : q.hook_fn ≡ hook
  pub variable : load 8 q.memory symbols.relocated_global_pointer ≡ page + offset
  pub returns : Holds (load 4 q.memory) (page + offset - 56) return_sequence
  pub entry : Holds (load 4 q.memory) (page + offset) (trampoline symbols.asm_syscall_hook)
  pub patched : All (λ m. is_target m ≡ true → Patched sys.capstone mem q.memory m) ms
  pub main_gp :
      {R : Type 0} (start : Bytes → StartMain → Process → R) (args : StartMain) (gp : ℕ)
      → libc_start_main start args (record q { gp = gp }) ≡ start (codes "__libc_start_main") args q

pub vpoline_init_steps :
    (sys : System) (symbols : Symbols) (p q r : Process) (mem : Memory)
    → install sys symbols p ≡ ok q
    → rewrite_code sys.capstone sys.mprotect sys.maps q.memory ≡ some (ok mem)
    → load_hook_lib sys symbols (record q { memory = mem }) ≡ ok r
    → vpoline_init sys symbols p ≡ some (ok r)
unfolding vpoline_init
vpoline_init_steps sys symbols p q r mem e1 e2 e3 = rw (e1, e2, e3) refl

module _ (sys : System) (symbols : Symbols) (p : Process) (k page : ℕ) (g' : Globals)
    (is : IsGranting k sys) (placed : IsPlaced k (with_gp p) sys.mmap page g')
    (lower : 56 ≤ p.gp % 2 ^ k) (upper : p.gp % 2 ^ k + 80 ≤ 2 ^ k) where
  abbrev size : ℕ
  size = g'.rsi.protection_size

  abbrev variable : ℕ
  variable = symbols.relocated_global_pointer

  module _ (w : Written)
      (i : Installed symbols.asm_syscall_hook g'.rsi (with_variable symbols g' p.memory) w)
      (ms : List Mapping) (h : All IsMapping ms) (apart : All (IsApart variable page size) ms)
      (capstone : IsCapstone sys.capstone) (mem1 mem2 : Memory)
      (all : AllPatched sys.capstone ms w.mem mem1)
      (keeps : (x : ℕ) → IsCode variable page size ms x → mem2 x ≡ mem1 x) where
    -- The rewriting and the library keep the new mapping.
    kept : (x : ℕ) → page ≤ x → x < page + size → mem2 x ≡ w.mem x
    kept x low high =
        keeps x (inl (inl (low, high)))
        ∙ all.elsewhere x
            (Apart-mapping sys symbols p k page g' is placed lower upper ms apart x low high)

    -- So is the variable.
    word_kept : (x : ℕ) → variable ≤ x → x < variable + 8 → mem2 x ≡ w.mem x
    word_kept x low high =
        keeps x (inl (inr (low, high)))
        ∙ all.elsewhere x
            (Apart-variable sys symbols p k page g' is placed lower upper ms apart x low high)

    code_kept : All (λ m. is_target m ≡ true → Patched sys.capstone p.memory mem2 m) ms
    code_kept = All-of_Mem _ ms (λ m e target.
        let first = All-Mem _ ms all.patched e target in
        let mapping : IsMapping m = All-Mem IsMapping ms h e in
        let later =
          Patched-after sys.capstone w.mem mem1 mem2 m
            (λ x low high. keeps x (inr (m, e, target, low, high))) first in
        Patched-before sys.capstone capstone p.memory w.mem mem2 m mapping.ordered
          (untouched sys symbols p k page g' is placed lower upper w i m
            (All-Mem (IsApart variable page size) ms apart e) target)
          later)

  -- For a system with pages of `2 ^ k` bytes that grants what the set-up asks for, with a mapping
  -- of `mmap`, a global pointer in neither the first nor the last page, at least 56 bytes behind
  -- the start of its page and 80 before its end, a capstone that starts and decodes only the bytes
  -- it is given, to instructions that are not empty and lie in them, with four bytes for `ecall`,
  -- sorted lines of /proc/self/maps in the format of proc(5), each with addresses below 2^63 and at
  -- most 4000 bytes behind the permissions, with the new mapping, the variable
  -- `relocated_global_pointer` and the executable ranges of libc apart from each other, and a hook
  -- library that loads, whose code does not write to them: `__vpoline_init` ends, with gp at its
  -- old distance from the page and stored in that variable, the handler for SIGSEGV and the hook
  -- function set, the return sequence and the trampoline around gp, and every `ecall` of the linear
  -- sweep of libc replaced. Whatever gp the C start code sets then, `__libc_start_main` calls the
  -- next function of its name with the process as it was left.
  pub vpoline_init-Started :
      IsCapstone sys.capstone
      → (sys.capstone.cs_open && sys.capstone.cs_option_detail && sys.capstone.cs_option_mem
          && sys.capstone.cs_malloc)
        ≡ true
      → (ms : List Mapping) → sys.maps ≡ some (print_file ms)
      → All IsMapping ms
      → Sorted ms
      → All (IsApart variable page size) ms
      → (variable + 8 ≤ page) ⊎ (page + size ≤ variable)
      → (hook : ℕ) → IsLibrary sys symbols (IsCode variable page size ms) hook
      → (q : Process) × (vpoline_init sys symbols p ≡ some (ok q))
        × Started sys symbols page (p.gp % 2 ^ k) hook g' ms p.memory q
  unfolding libc_start_main
  vpoline_init-Started capstone ready ms file h sorted apart other hook library =
      let (w, e, i) = install-Installed sys symbols p k page g' is placed in
      let (mem1, e1, all) =
        rewrite_code-AllPatched sys.capstone capstone sys.mprotect ready is.granted ms h sorted
          w.mem in
      let q : Process = prepared symbols p g' mem1 in
      let (mem2, e2, keeps) =
        load_hook_lib-IsLibrary sys symbols (IsCode variable page size ms) hook library q in
      let place = placed_fields placed in
      let start : g'.rsi.start_addr ≡ page + p.gp % 2 ^ k - 56 =
        omega (arith, inside sys symbols p k page g' is placed lower upper, place) in
      let same = kept w i ms h apart capstone mem1 mem2 all keeps in
      (
        record q { hook_fn = hook; memory = mem2 },
        vpoline_init_steps sys symbols p (prepared symbols p g' w.mem) _ mem1 e (rw file e1) e2,
        record {
          gp_set = place.0;
          variable =
              variable_kept sys symbols p k page g' is placed lower upper w i other mem2
                (word_kept w i ms h apart capstone mem1 mem2 all keeps)
              ∙ place.0;
          globals_set = refl;
          handler = refl;
          hook_set = refl;
          returns =
              rw (← start)
                (returns_kept sys symbols p k page g' is placed lower upper w i mem2 same);
          entry =
              rw (← place.0)
                (entry_kept sys symbols p k page g' is placed lower upper w i mem2 same);
          patched = code_kept w i ms h apart capstone mem1 mem2 all keeps;
          main_gp = λ start args gp. refl;
        },
      )
