-- ===== src/Handler/Reach.antt =====
-- src/utils.c and src/sigsegv_handler.c together: which accesses relative to gp the mapping catches.
use vpoline.Common.{ℕ, ◌+◌, ◌-◌, ◌%◌, ◌^◌, ◌≤◌, ◌<◌, ◌≢◌, ◌↔◌, ◌⊎◌, inl, inr, arith, Option}
use vpoline.Memory.{Memory}
use vpoline.Memory.Laws.{IsBytes}
use vpoline.Layout.{Globals}
use vpoline.Layout.Fields.{protection_size-cases}
use vpoline.Layout.Placement.{IsPlaced, placed_fields}
use vpoline.Handler.{raised, segfault_handler}
use vpoline.Handler.Emulate.{Context}
use vpoline.Handler.Handle.{InShadow, segfault_handler-raised_iff}
use vpoline.Handler.Redirect.{placed-IsShadow}

module _ {k : ℕ} {g : Globals} {mmap : ℕ → Option ℕ} {page : ℕ} {g' : Globals}
    (p : IsPlaced k g mmap page g') where
  open p use {system, mapping}

  abbrev offset : ℕ
  offset = g.virtual_global_pointer % 2 ^ k

  -- The bytes that a 12-bit immediate reaches, from the lowest on.
  abbrev pub reached : ℕ → ℕ
  reached n = g'.rsi.relocated_gp + n - 2048

  reach_iff :
      ((n : ℕ) → n < 4096 → InShadow g'.rsi (reached n))
      ↔ ((2048 ≤ offset) × (offset + 2048 ≤ 2 ^ k))
  reach_iff =
      let sizes = protection_size-cases k g system in
      let fields = placed_fields p in
      (
        λ all.
            let (low, _) = all 0 (omega arith) in
            let (_, high) = all 4095 (omega arith) in
            grind (arith, low, high, sizes, fields, mapping, system),
        λ near n few. grind (arith, near, few, sizes, fields, mapping, system),
      )

  shadow_cases : (a : ℕ) → InShadow g'.rsi a ⊎ ¬ InShadow g'.rsi a
  shadow_cases a = ground arith

  -- For a system with pages of `2 ^ k` bytes, a mapping of `mmap`, a global pointer in neither the
  -- first nor the last page, and a memory of bytes: no fault at a 12-bit offset from the
  -- relocated global pointer is given back to the default action, exactly when the original global
  -- pointer stands at least 2048 bytes behind the start of its page and at least 2048 before its
  -- end: with pages of 4096 bytes, at one place of the page alone.
  pub segfault_handler-reach_iff :
      (ctx : Context) (mem : Memory)
      → IsBytes mem
      → ((n : ℕ) → n < 4096 → segfault_handler g'.rsi (reached n) ctx mem ≢ raised) ↔ (
          (2048 ≤ g.virtual_global_pointer % 2 ^ k)
          × (g.virtual_global_pointer % 2 ^ k + 2048 ≤ 2 ^ k))
  segfault_handler-reach_iff ctx mem bytes = (
    λ caught. reach_iff.0 (λ n few. elim (shadow_cases (reached n)) [
      | inl inside ↦ inside
      | inr out ↦ absurd (
          caught n few (
            (segfault_handler-raised_iff g'.rsi (placed-IsShadow p) (reached n) ctx mem bytes).1
              out))
    ]),
    λ near n few e.
        (segfault_handler-raised_iff g'.rsi (placed-IsShadow p) (reached n) ctx mem bytes).0 e
          (reach_iff.1 near n few),
  )
