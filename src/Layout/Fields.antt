-- ===== src/Layout/Fields.antt =====
-- src/utils.c: the pages and the sizes that `define_ret_sequence_info` computes, for every page size
-- and every value of the global pointer.
use vpoline.Common.{
  ℕ, ◌+◌, ◌-◌, ◌*◌, ◌/◌, ◌%◌, ◌^◌, ◌≤◌, ◌<◌, ◌≡◌, refl, arith, ◌&&◌, leb, ltb, sub64, u64,
  if◌then◌else◌,
}
use vpoline.Layout.{Globals, ret_sequence_size, define_ret_sequence_info}
use vpoline.Layout.Pages.{page_floor}

-- What the documents of the system and of the linker say of the arguments: pages of `2 ^ k` bytes,
-- at least 64 and less than half the addresses, and a global pointer
-- in neither the first page nor the last.
pub record IsSystem (k : ℕ) (g : Globals) : Type 0 where
  pub page_lower : 64 ≤ 2 ^ k
  pub page_upper : k < 63
  pub half : 2 ^ k < 2 ^ 63
  pub gp_lower : 2 ^ k ≤ g.virtual_global_pointer
  pub gp_upper : g.virtual_global_pointer + 2 ^ k < 2 ^ 64

floor_cases :
    (p v : ℕ)
    → 64 ≤ p
    → p ≤ v
    → (v - 56) / p * p ≡ (if ltb (v % p) 56 then v - v % p - p else v - v % p)
floor_cases p v hp h = grind arith

floor_pred :
    (p v : ℕ) → 64 ≤ p → p ≤ v → (v - 1) / p * p ≡ (if ltb (v % p) 1 then v - p else v - v % p)
floor_pred p v hp h = grind arith

module _ (k : ℕ) (g : Globals) where
  abbrev pub defined : Globals
  defined = define_ret_sequence_info (2 ^ k) g

  abbrev pub offset : ℕ
  offset = g.virtual_global_pointer % 2 ^ k

  size_raw :
      defined.rsi.protection_size
      ≡ u64 (sub64 defined.rsi.end_addr_page defined.rsi.start_addr_page + 2 ^ k)
  unfolding define_ret_sequence_info
  size_raw = refl

  pub gp_offset_raw : defined.rsi.gp_offset ≡ offset
  unfolding define_ret_sequence_info
  gp_offset_raw = refl

module _ (k : ℕ) (g : Globals) (s : IsSystem k g) where
  pub start_page : (defined k g).rsi.start_addr_page ≡ (
      if ltb (offset k g) 56
      then g.virtual_global_pointer - (offset k g) - 2 ^ k
      else g.virtual_global_pointer - (offset k g))
  unfolding define_ret_sequence_info
  start_page =
      let v : ℕ = g.virtual_global_pointer in
      let e : sub64 v ret_sequence_size ≡ v - 56 = omega arith in
      rw (e, page_floor k (v - 56) (omega arith) (omega arith))
        (floor_cases (2 ^ k) v s.page_lower s.gp_lower)

  pub end_page : (defined k g).rsi.end_addr_page ≡ (
      if ltb (offset k g) 1
      then g.virtual_global_pointer - 2 ^ k
      else g.virtual_global_pointer - (offset k g))
  unfolding define_ret_sequence_info
  end_page =
      let v : ℕ = g.virtual_global_pointer in
      let e : sub64 v 1 ≡ v - 1 = omega arith in
      rw (e, page_floor k (v - 1) (omega arith) (omega arith))
        (floor_pred (2 ^ k) v s.page_lower s.gp_lower)

  -- The mapping is of two pages exactly when the 56 bytes below the global pointer lie in two
  -- pages, and of one page otherwise.
  pub protection_size-cases :
      (defined k g).rsi.protection_size
      ≡ (if leb 1 (offset k g) && ltb (offset k g) 56 then 2 * 2 ^ k else 2 ^ k)
  protection_size-cases = rw (size_raw k g) (grind (arith, start_page, end_page, s))
