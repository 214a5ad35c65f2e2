-- ===== src/Startup/Kept.antt =====
-- What a later memory still holds of the code that the set-up has written.
use vpoline.Common.{
  Option, ◌∙◌, ℕ, ◌+◌, ◌%◌, ◌^◌, ◌≤◌, ◌<◌, ◌≡◌, arith, true, List, inl, inr, ◌⊎◌, All, All-Mem,
  All-of_Mem,
}
use vpoline.Memory.{Memory, load}
use vpoline.Layout.{Globals, allocate_ret_sequence_page}
use vpoline.Layout.Fields.{defined}
use vpoline.Memory.Laws.{load_ext, store_outside, load-store_8}
use vpoline.Common.Exit.{ok}
use vpoline.Startup.{with_variable}
use vpoline.Layout.Placement.{IsPlaced, placement_iff}
use vpoline.Patcher.{Written, trampoline, return_sequence}
use vpoline.Patcher.Words.{Holds}
use vpoline.Patcher.Installed.{Installed, Holds-between, length-trampoline}
use vpoline.Maps.Print.{Mapping}
use vpoline.Maps.Line.{is_target}
use vpoline.Maps.Patched.{Apart}
use vpoline.Startup.{with_gp, System, Symbols, Process}
use vpoline.Startup.Placed.{IsGranting, gp_place}

-- The range of a mapping of the file that the new mapping and the variable are apart from.
abbrev pub IsApart : (variable page size : ℕ) → Mapping → Type 0
IsApart variable page size m =
    is_target m ≡ true
    → ((m.to_address ≤ page) ⊎ (page + size ≤ m.from_address))
      × ((m.to_address ≤ variable) ⊎ (variable + 8 ≤ m.from_address))

-- The variable has the address that the later steps use.
relocated_value :
    (mmap : ℕ → Option ℕ) (d g' : Globals)
    → allocate_ret_sequence_page mmap d ≡ ok g'
    → (g'.relocated_global_pointer ≡ g'.rsi.relocated_gp) × (g'.relocated_global_pointer < 2 ^ 64)
unfolding allocate_ret_sequence_page
relocated_value mmap d g' e = ground arith

module _ (sys : System) (symbols : Symbols) (p : Process) (k page : ℕ) (g' : Globals)
    (is : IsGranting k sys) (placed : IsPlaced k (with_gp p) sys.mmap page g')
    (lower : 56 ≤ p.gp % 2 ^ k) (upper : p.gp % 2 ^ k + 80 ≤ 2 ^ k) where
  abbrev pub size : ℕ
  size = g'.rsi.protection_size

  abbrev variable : ℕ
  variable = symbols.relocated_global_pointer

  -- The two pieces of code lie in the mapping.
  pub inside :
      (page ≤ g'.rsi.start_addr)
      × (g'.rsi.relocated_gp + 80 ≤ page + size)
      × (g'.rsi.relocated_gp ≡ g'.rsi.start_addr + 56)
  inside =
      let (a, b) = (placement_iff placed).1 (lower, upper) in
      (a.0, b.1, gp_place sys symbols p k page g' is placed)

  -- No byte of the variable is in the ranges of libc.
  pub Apart-variable :
      (ms : List Mapping)
      → All (IsApart variable page size) ms
      → (x : ℕ) → variable ≤ x
      → x < variable + 8
      → All (Apart x) ms
  Apart-variable ms apart x low high = All-of_Mem (Apart x) ms (λ m e target.
      elim (All-Mem (IsApart variable page size) ms apart e target).1 [
        | inl under ↦ inr (omega arith)
        | inr over ↦ inl (omega arith)
      ])

  -- No byte of the new mapping is in the ranges of libc.
  pub Apart-mapping :
      (ms : List Mapping)
      → All (IsApart variable page size) ms
      → (x : ℕ) → page ≤ x
      → x < page + size
      → All (Apart x) ms
  Apart-mapping ms apart x low high = All-of_Mem (Apart x) ms (λ m e target.
      elim (All-Mem (IsApart variable page size) ms apart e target).0 [
        | inl under ↦ inr (omega arith)
        | inr over ↦ inl (omega arith)
      ])

  module _ (w : Written)
      (i : Installed symbols.asm_syscall_hook g'.rsi (with_variable symbols g' p.memory) w) where
    -- The new mapping is apart from the range.
    pub untouched :
        (m : Mapping)
        → IsApart variable page size m
        → is_target m ≡ true
        → (x : ℕ) → m.from_address ≤ x
        → x < m.to_address
        → w.mem x ≡ p.memory x
    untouched m out target x low high =
        let (apart, other) = out target in
        let outside : (x < g'.rsi.start_addr) ⊎ (g'.rsi.start_addr + 136 ≤ x) =
          ground (arith, apart, inside) in
        i.elsewhere x outside
        ∙ store_outside 8 p.memory variable g'.relocated_global_pointer x (ground (arith, other))

    -- A memory that agrees on the variable, which is apart from the new mapping.
    pub variable_kept :
        (variable + 8 ≤ page) ⊎ (page + size ≤ variable)
        → (mem : Memory) → ((x : ℕ) → variable ≤ x → x < variable + 8 → mem x ≡ w.mem x)
        → load 8 mem variable ≡ g'.rsi.relocated_gp
    variable_kept apart mem same =
        let first : load 8 mem variable ≡ load 8 w.mem variable =
          load_ext 8 mem w.mem variable (λ x low high. same x low high) in
        let second : load 8 w.mem variable ≡ load 8 (with_variable symbols g' p.memory) variable =
          load_ext 8 w.mem (with_variable symbols g' p.memory) variable
            (λ x low high. i.elsewhere x (ground (arith, apart, inside))) in
        let (value, small) = relocated_value sys.mmap (defined k (with_gp p)) g' placed.result in
        first
        ∙ second
        ∙ load-store_8 p.memory variable g'.relocated_global_pointer
        ∙ omega (arith, value, small)

    -- A memory that agrees on the new mapping.
    module _ (mem : Memory) (same : (x : ℕ) → page ≤ x → x < page + size → mem x ≡ w.mem x) where
      pub returns_kept : Holds (load 4 mem) g'.rsi.start_addr return_sequence
      returns_kept =
          Holds-between w.mem mem g'.rsi.start_addr return_sequence
            (λ x low high. same x (omega (arith, inside)) (omega (arith, inside))) i.returns

      pub entry_kept : Holds (load 4 mem) g'.rsi.relocated_gp (trampoline symbols.asm_syscall_hook)
      entry_kept =
          let words = length-trampoline symbols.asm_syscall_hook in
          Holds-between w.mem mem g'.rsi.relocated_gp (trampoline symbols.asm_syscall_hook)
            (λ x low high. same x (omega (arith, inside)) (omega (arith, inside, words))) i.entry
