-- ===== src/Layout/Placement.antt =====
-- src/utils.c: where `allocate_ret_sequence_page` places the return sequence and the trampoline.
use vpoline.Common.{ℕ, ◌+◌, ◌%◌, ◌^◌, ◌≤◌, ◌<◌, ◌≡◌, arith, ◌↔◌, sub64, Option, some}
use vpoline.Common.Exit.{ok}
use vpoline.Layout.{Globals, ret_sequence_size, allocate_ret_sequence_page}
use vpoline.Layout.Fields.{IsSystem, defined, offset, gp_offset_raw, protection_size-cases}

-- `n` bytes at `a` lie in the `size` bytes at `page`.
abbrev pub Inside : (page size a n : ℕ) → Type 0
Inside page size a n = (page ≤ a) × (a + n ≤ page + size)

-- 20 instructions of 4 bytes.
abbrev pub trampoline_size : ℕ
trampoline_size = 80

-- What `mmap` says of a mapping of `size` bytes: whole pages above the first, below `2 ^ 64`.
pub record IsMapping (k page size : ℕ) : Type 0 where
  pub aligned : page % 2 ^ k ≡ 0
  pub above : 2 ^ k ≤ page
  pub below : page + size < 2 ^ 64

-- What a successful `allocate_ret_sequence_page` sets and keeps.
allocate_fields :
    (mmap : ℕ → Option ℕ) (d : Globals) (page : ℕ)
    → mmap d.rsi.protection_size ≡ some page
    → page + d.rsi.gp_offset < 2 ^ 64
    → (g' : Globals) → allocate_ret_sequence_page mmap d ≡ ok g'
    → (g'.rsi.relocated_gp ≡ page + d.rsi.gp_offset)
      × (g'.rsi.start_addr ≡ sub64 (page + d.rsi.gp_offset) 56)
      × (g'.rsi.protection_size ≡ d.rsi.protection_size)
      × (g'.rsi.start_addr_page ≡ d.rsi.start_addr_page)
      × (g'.rsi.ret_sequence_page_addr ≡ page)
unfolding allocate_ret_sequence_page
allocate_fields mmap d page found small g' h = ground arith

-- A successful run of the two functions of utils.c, with the page that `mmap` gave.
pub record IsPlaced (k : ℕ) (g : Globals) (mmap : ℕ → Option ℕ) (page : ℕ) (g' : Globals)
    : Type 0 where
  pub system : IsSystem k g
  pub mapping : IsMapping k page (defined k g).rsi.protection_size
  pub found : mmap (defined k g).rsi.protection_size ≡ some page
  pub result : allocate_ret_sequence_page mmap (defined k g) ≡ ok g'

module _ {k : ℕ} {g : Globals} {mmap : ℕ → Option ℕ} {page : ℕ} {g' : Globals}
    (p : IsPlaced k g mmap page g') where
  open p use {system, mapping, found, result}

  -- The fields that the later steps read.
  pub placed_fields :
      (g'.rsi.relocated_gp ≡ page + offset k g)
      × (g'.rsi.start_addr ≡ sub64 (page + offset k g) 56)
      × (g'.rsi.protection_size ≡ (defined k g).rsi.protection_size)
      × (g'.rsi.start_addr_page ≡ (defined k g).rsi.start_addr_page)
      × (g'.rsi.ret_sequence_page_addr ≡ page)
  placed_fields = rw (← gp_offset_raw k g) (
      allocate_fields mmap (defined k g) page found
        (grind (arith, gp_offset_raw k g, protection_size-cases k g system, mapping, system)) g'
        result)

  -- With the pages that `mmap` gives, the 56 bytes of the return sequence and the 80 bytes of the
  -- trampoline both lie in the mapping exactly when the global pointer stands at least 56 bytes
  -- behind the start of its page and at least 80 bytes before its end.
  pub placement_iff :
      (Inside page g'.rsi.protection_size g'.rsi.start_addr ret_sequence_size
        × Inside page g'.rsi.protection_size g'.rsi.relocated_gp trampoline_size)
      ↔ ((56 ≤ g.virtual_global_pointer % 2 ^ k) × (g.virtual_global_pointer % 2 ^ k + 80 ≤ 2 ^ k))
  placement_iff = grind (arith, placed_fields, protection_size-cases k g system, mapping, system)
