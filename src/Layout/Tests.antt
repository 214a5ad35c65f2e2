-- ===== src/Layout/Tests.antt =====
-- Runs of utils.c, and its theorems at them.
use vpoline.Common.{ℕ, ◌+◌, ◌%◌, ◌^◌, ◌≤◌, ◌≡◌, refl, arith, ◌↔◌, Option, some, none}
use vpoline.Common.Exit.{ok, exit}
use vpoline.Layout.{
  Globals, ReturnSequenceInfo, define_ret_sequence_info, allocate_ret_sequence_page,
}
use vpoline.Layout.Fields.{IsSystem, defined, protection_size-cases}
use vpoline.Layout.Placement.{IsPlaced, Inside, placement_iff}

abbrev pub blank : ReturnSequenceInfo
blank = record {
  start_addr = 0;
  end_addr = 0;
  start_addr_page = 0;
  end_addr_page = 0;
  gp_offset = 0;
  relocated_gp = 0;
  start_offset = 0;
  protection_size = 0;
  ret_sequence_page_addr = 0;
}

-- The globals at the start, for a global pointer.
abbrev pub globals : ℕ → Globals
globals gp = record {
  virtual_global_pointer = gp;
  relocated_global_pointer = 0;
  page_size = 0;
  rsi = blank;
}

abbrev pub mmap : ℕ → Option ℕ
mmap size = some 0x7f00_0000_0000

-- `__global_pointer$` at 0x800 in its page.
abbrev pub placed : Globals
placed = record {
  virtual_global_pointer = 0x12800;
  relocated_global_pointer = 0x7f00_0000_0800;
  page_size = 4096;
  rsi = record {
    start_addr = 0x7f00_0000_07c8;
    end_addr = 0x7f00_0000_07ff;
    start_addr_page = 0x12000;
    end_addr_page = 0x12000;
    gp_offset = 0x800;
    relocated_gp = 0x7f00_0000_0800;
    start_offset = 0x7c8;
    protection_size = 4096;
    ret_sequence_page_addr = 0x7f00_0000_0000;
  };
}

placed_run : allocate_ret_sequence_page mmap (defined 12 (globals 0x12800)) ≡ ok placed
unfolding define_ret_sequence_info allocate_ret_sequence_page
placed_run = refl

-- Without a mapping the process ends.
no_page : allocate_ret_sequence_page (λ _. none) (defined 12 (globals 0x12800)) ≡ exit 1
unfolding allocate_ret_sequence_page
no_page = refl

-- 0x10 bytes into its page the sequence begins in the page before.
straddling : (defined 12 (globals 0x12010)).rsi.protection_size ≡ 8192
unfolding define_ret_sequence_info
straddling = refl

pub system : IsSystem 12 (globals 0x12800)
system = omega arith

pub is_placed : IsPlaced 12 (globals 0x12800) mmap 0x7f00_0000_0000 placed
unfolding define_ret_sequence_info
is_placed = record { system = system; mapping = omega arith; found = refl; result = placed_run }

protection_size-cases_example : (defined 12 (globals 0x12800)).rsi.protection_size ≡ 4096
protection_size-cases_example = protection_size-cases 12 (globals 0x12800) system

placement_iff_example :
    (Inside 0x7f00_0000_0000 4096 0x7f00_0000_07c8 56
      × Inside 0x7f00_0000_0000 4096 0x7f00_0000_0800 80)
    ↔ ((56 ≤ 0x12800 % 2 ^ 12) × (0x12800 % 2 ^ 12 + 80 ≤ 2 ^ 12))
placement_iff_example = placement_iff is_placed

-- `__global_pointer$` at 0x10 in its page, with the return sequence across two pages.
abbrev pub near_start : Globals
near_start = record {
  virtual_global_pointer = 0x13010;
  relocated_global_pointer = 0x7f00_0000_0010;
  page_size = 4096;
  rsi = record {
    start_addr = 0x7eff_ffff_ffd8;
    end_addr = 0x7f00_0000_000f;
    start_addr_page = 0x12000;
    end_addr_page = 0x13000;
    gp_offset = 0x10;
    relocated_gp = 0x7f00_0000_0010;
    start_offset = 0xfd8;
    protection_size = 8192;
    ret_sequence_page_addr = 0x7f00_0000_0000;
  };
}

pub near_start-IsPlaced : IsPlaced 12 (globals 0x13010) mmap 0x7f00_0000_0000 near_start
unfolding define_ret_sequence_info allocate_ret_sequence_page
near_start-IsPlaced = record {
  system = omega arith;
  mapping = omega arith;
  found = refl;
  result = refl;
}
