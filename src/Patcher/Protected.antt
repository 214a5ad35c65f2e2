-- ===== src/Patcher/Protected.antt =====
-- src/utils.c and src/patcher.c together: the pages that become execute-only.
use vpoline.Common.{
  ℕ, ◌+◌, ◌-◌, ◌%◌, ◌^◌, ◌≤◌, ◌<◌, ◌≡◌, refl, arith, Bool, Option, u32, some, ltb, if◌then◌else◌,
  ◌∙◌, ap, inl, inr, Bool-cases,
}
use vpoline.Common.Exit.{ok}
use vpoline.Memory.{Memory}
use vpoline.Layout.{
  Globals, ReturnSequenceInfo, define_ret_sequence_info, allocate_ret_sequence_page,
}
use vpoline.Layout.Fields.{defined, protection_size-cases}
use vpoline.Layout.Placement.{IsPlaced, placed_fields}
use vpoline.Patcher.{Protection, Written, setup_return}

-- A place in an aligned mapping.
mod_add : (page r p : ℕ) → page % p ≡ 0 → r < p → (page + r) % p ≡ r
mod_add page r p aligned small = grind arith

mod_sub : (page r p : ℕ) → page % p ≡ 0 → 0 < r → r ≤ p → p ≤ page → (page - r) % p ≡ p - r
mod_sub page r p aligned pos small above = grind arith

allocate_start_offset :
    (mmap : ℕ → Option ℕ) (d : Globals) (page : ℕ)
    → mmap d.rsi.protection_size ≡ some page
    → (g' : Globals) → allocate_ret_sequence_page mmap d ≡ ok g'
    → g'.rsi.start_offset ≡ u32 (g'.rsi.start_addr % d.page_size)
unfolding allocate_ret_sequence_page
allocate_start_offset mmap d page found g' h = ground arith

defined_page_size : (k : ℕ) (g : Globals) → (defined k g).page_size ≡ 2 ^ k
unfolding define_ret_sequence_info
defined_page_size k g = refl

-- The request of a run that comes back.
setup_return_request :
    (mprotect : Protection → Bool) (page_size : ℕ) (rsi : ReturnSequenceInfo) (mem : Memory)
    (w : Written)
    → setup_return mprotect page_size rsi mem ≡ ok w
    → (w.protection.addr ≡ rsi.ret_sequence_page_addr) × (w.protection.len ≡ 56 + rsi.start_offset)
unfolding setup_return
setup_return_request mprotect page_size rsi mem w e = ground arith

module _ {k : ℕ} {g : Globals} {mmap : ℕ → Option ℕ} {page : ℕ} {g' : Globals}
    (p : IsPlaced k g mmap page g') (few : 2 ^ k ≤ 2 ^ 32) where
  open p use {system, mapping, found, result}

  abbrev offset : ℕ
  offset = g.virtual_global_pointer % 2 ^ k

  start_offset_lem :
      g'.rsi.start_offset ≡ (if ltb offset 56 then 2 ^ k + offset - 56 else offset - 56)
  start_offset_lem =
      let raw =
        allocate_start_offset mmap (defined k g) page found g' result
        ∙ ap (λ (n : ℕ). u32 (g'.rsi.start_addr % n)) (defined_page_size k g) in
      let fields = placed_fields p in
      let sizes = protection_size-cases k g system in
      elim (Bool-cases (ltb offset 56)) [
        | inl near ↦
            let place : g'.rsi.start_addr ≡ page - (56 - offset) =
              grind (arith, fields, sizes, mapping, system, near) in
            let rest =
              mod_sub page (56 - offset) (2 ^ k) mapping.aligned (ground (arith, near))
                (grind (arith, system)) mapping.above in
            let sum : g'.rsi.start_offset ≡ u32 (2 ^ k - (56 - offset)) =
              raw ∙ ap (λ (n : ℕ). u32 (n % 2 ^ k)) place ∙ ap u32 rest in
            rw near (grind (arith, sum, few, near, system))
        | inr far ↦
            let small : offset < 2 ^ k = grind (arith, system) in
            let place : g'.rsi.start_addr ≡ page + (offset - 56) =
              grind (arith, fields, sizes, mapping, system, far, small) in
            let rest =
              mod_add page (offset - 56) (2 ^ k) mapping.aligned (grind (arith, small, system)) in
            let sum : g'.rsi.start_offset ≡ u32 (offset - 56) =
              raw ∙ ap (λ (n : ℕ). u32 (n % 2 ^ k)) place ∙ ap u32 rest in
            rw far (grind (arith, sum, few, small, system))
      ]

  -- For a system with pages of `2 ^ k` bytes, at most 2^32, a mapping of `mmap`, and any global
  -- pointer in neither the first nor the last page: when `setup_return` comes back, the pages that
  -- it has asked to make execute-only are those of the mapping. The request starts at the mapping,
  -- reaches into its last page, and not beyond it.
  pub setup_return-covers :
      (mprotect : Protection → Bool) (mem : Memory) (w : Written)
      → setup_return mprotect g'.page_size g'.rsi mem ≡ ok w
      → (w.protection.addr ≡ page)
        × (page + g'.rsi.protection_size < w.protection.addr + w.protection.len + 2 ^ k)
        × (w.protection.addr + w.protection.len ≤ page + g'.rsi.protection_size)
  setup_return-covers mprotect mem w e =
      let request = setup_return_request mprotect g'.page_size g'.rsi mem w e in
      let sizes = protection_size-cases k g system in
      grind (arith, request, sizes, placed_fields p, start_offset_lem, mapping, system)
