-- ===== src/Layout.antt =====
-- src/main.h, src/utils.c: where the return sequence is placed. The addresses are 64-bit numbers;
-- `sysconf(_SC_PAGESIZE)` and `mmap` are arguments.
pub mod Pages
pub mod Fields
pub mod Placement
pub mod Tests
use vpoline.Common.{ℕ, ◌+◌, ◌-◌, ◌%◌, ◌^◌, bit_and, Option, none, some, u32, u64, sub64}
use vpoline.Common.Exit.{Exit, ok, exit}

-- RET_SEQUENCE_SIZE: 14 instructions of 4 bytes.
abbrev pub ret_sequence_size : ℕ
ret_sequence_size = 56

-- `ReturnSequenceInfo`.
pub record ReturnSequenceInfo : Type 0 where
  pub start_addr : ℕ
  pub end_addr : ℕ
  pub start_addr_page : ℕ
  pub end_addr_page : ℕ
  pub gp_offset : ℕ
  pub relocated_gp : ℕ
  pub start_offset : ℕ
  pub protection_size : ℕ
  pub ret_sequence_page_addr : ℕ

-- The global variables of main.c that the set-up reads and writes.
pub record Globals : Type 0 where
  pub virtual_global_pointer : ℕ
  pub relocated_global_pointer : ℕ
  pub page_size : ℕ
  pub rsi : ReturnSequenceInfo

-- `~(page_size - 1)`.
abbrev pub page_mask : ℕ → ℕ
page_mask page_size = 2 ^ 64 - 1 - sub64 page_size 1

-- `define_ret_sequence_info`; `sysconf` is the page size that the system reports.
unfoldable pub define_ret_sequence_info : (sysconf : ℕ) → Globals → Globals
define_ret_sequence_info sysconf g =
    let mask : ℕ = page_mask sysconf in
    let start : ℕ = sub64 g.virtual_global_pointer ret_sequence_size in
    let last : ℕ = sub64 g.virtual_global_pointer 1 in
    let start_page : ℕ = bit_and start mask in
    let end_page : ℕ = bit_and last mask in
    let rsi : ReturnSequenceInfo = g.rsi in
    record g {
      page_size = sysconf;
      rsi = record rsi {
        gp_offset = g.virtual_global_pointer % sysconf;
        start_addr = start;
        end_addr = last;
        start_addr_page = start_page;
        end_addr_page = end_page;
        protection_size = u64 (sub64 end_page start_page + sysconf);
      };
    }

-- `allocate_ret_sequence_page`; `mmap` gives the address of a mapping of a length, or fails.
unfoldable pub allocate_ret_sequence_page : (mmap : ℕ → Option ℕ) → Globals → Exit Globals
allocate_ret_sequence_page mmap g = elim (mmap g.rsi.protection_size) [
  | none ↦ exit 1
  | some page ↦
      let gp : ℕ = u64 (page + g.rsi.gp_offset) in
      let start : ℕ = sub64 gp ret_sequence_size in
      let rsi : ReturnSequenceInfo = g.rsi in
      ok (record g {
        relocated_global_pointer = gp;
        rsi = record rsi {
          ret_sequence_page_addr = page;
          relocated_gp = gp;
          start_addr = start;
          end_addr = sub64 gp 1;
          start_offset = u32 (start % g.page_size);
        };
      })
]
