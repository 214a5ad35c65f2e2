-- ===== src/Handler/Dispatch.antt =====
-- src/sigsegv_handler.c: the two switches of `segfault_handler` decode as the manual says.
use vpoline.Common.{
  ℕ, ◌+◌, ◌/◌, ◌%◌, ◌^◌, ◌<◌, ◌≡◌, ◌≢◌, inl, inr, arith, ◌==◌, if◌then◌else◌, ◌∙◌, none, Bool, ◌&&◌,
  ==_ne, Bool-cases,
}
use vpoline.Common.Exit.{ok, exit}
use vpoline.Memory.{Memory}
use vpoline.Memory.Laws.{IsBytes}
use vpoline.Handler.{get_field, emulate_32bit, emulate_16bit}
use vpoline.Handler.Emulate.{
  Context, emulate_load_instruction, emulate_c_load_store_instruction,
  emulate_sp_rel_c_load_store_instruction,
}
use vpoline.Handler.Isa.{access, access_32bit, access_16bit}
use vpoline.Handler.Fields.{get_field_lem, rvc_reg_lem}
use vpoline.Handler.Refinement.{
  effect, load_effect, fload_effect, store_effect, fstore_effect, c_effect, c_sp_effect,
}

-- The encoding of a load with an undefined width and register 0.
abbrev pub IsReserved : ℕ → Type 0
IsReserved w = (w % 128 ≡ 3) × (w / 2 ^ 12 % 8 ≡ 7) × (w / 2 ^ 7 % 32 ≡ 0)

abbrev pub is_reserved : ℕ → Bool
is_reserved w = (w % 128 == 3) && (w / 2 ^ 12 % 8 == 7) && (w / 2 ^ 7 % 32 == 0)

module _ (ctx : Context) (mem : Memory) (a : ℕ) (bytes : IsBytes mem) (w : ℕ) where
  pub emulate_32bit-effect :
      w % 4 ≡ 3 → ¬ IsReserved w → emulate_32bit w a ctx mem ≡ effect (access w) a ctx mem
  unfolding emulate_32bit access
  emulate_32bit-effect h r =
      rw
        (
          get_field_lem w 0 7 (omega arith),
          get_field_lem w 12 3 (omega arith),
          get_field_lem w 7 5 (omega arith),
          get_field_lem w 20 5 (omega arith),
        )
        (ground (
          arith,
          load_effect ctx mem a bytes (w / 4096 % 8) (w / 128 % 32) (w / 1048576 % 32),
          fload_effect ctx mem a bytes (w / 4096 % 8) (w / 128 % 32) (w / 1048576 % 32),
          store_effect ctx mem a bytes (w / 4096 % 8) (w / 128 % 32) (w / 1048576 % 32),
          fstore_effect ctx mem a bytes (w / 4096 % 8) (w / 128 % 32) (w / 1048576 % 32),
        ))

  pub emulate_32bit_reserved : IsReserved w → emulate_32bit w a ctx mem ≡ ok (ctx, mem)
  unfolding emulate_32bit emulate_load_instruction
  emulate_32bit_reserved r =
      let e0 : get_field w 0 7 ≡ 3 = get_field_lem w 0 7 (omega arith) ∙ omega arith in
      let e1 : get_field w 7 5 ≡ 0 = get_field_lem w 7 5 (omega arith) ∙ omega arith in rw (e0, e1)

  -- The two quadrants, by their fields.
  emulate_quadrant :
      (q f r d t : ℕ)
      → f < 8
      → q ≢ 3
      → (if q == 0
          then emulate_c_load_store_instruction ctx mem f (8 + r) a
          else if q == 2
          then emulate_sp_rel_c_load_store_instruction ctx mem f d t a
          else exit 1)
        ≡ effect
            (if q == 3
              then access_32bit (w % 128) (w / 2 ^ 12 % 8) (w / 2 ^ 7 % 32) (w / 2 ^ 20 % 32)
              else if q == 0
              then access_16bit f (8 + r) (8 + r)
              else if q == 2
              then access_16bit f d t
              else none)
            a
            ctx
            mem
  emulate_quadrant q f r d t h n = rw (==_ne q 3 n) (elim (Bool-cases (q == 0)) [
    | inl z ↦ rw z (c_effect ctx mem a bytes f (8 + r) h (omega arith))
    | inr nz ↦ rw nz (elim (Bool-cases (q == 2)) [
      | inl two ↦ rw two (c_sp_effect ctx mem a bytes f d t h)
      | inr ntwo ↦ rw ntwo
    ])
  ])

  pub emulate_16bit-effect :
      (c : ℕ) → c ≡ w % 2 ^ 16 → w % 4 ≢ 3 → emulate_16bit c a ctx mem ≡ effect (access w) a ctx mem
  unfolding emulate_16bit access
  emulate_16bit-effect c e h =
      let e0 : get_field c 0 2 ≡ w % 4 = get_field_lem c 0 2 (omega arith) ∙ omega arith in
      let e1 : get_field c 13 3 ≡ w / 2 ^ 13 % 8 =
        get_field_lem c 13 3 (omega arith) ∙ omega arith in
      let e2 : get_field c 2 3 ≡ w / 2 ^ 2 % 8 = get_field_lem c 2 3 (omega arith) ∙ omega arith in
      let e3 : get_field c 7 5 ≡ w / 2 ^ 7 % 32 = get_field_lem c 7 5 (omega arith) ∙ omega arith in
      let e4 : get_field c 2 5 ≡ w / 2 ^ 2 % 32 = get_field_lem c 2 5 (omega arith) ∙ omega arith in
      rw (e0, e1, e2, e3, e4, rvc_reg_lem (w / 2 ^ 2 % 8) (omega arith))
        (emulate_quadrant (w % 4) (w / 2 ^ 13 % 8) (w / 2 ^ 2 % 8) (w / 2 ^ 7 % 32) (w / 2 ^ 2 % 32)
          (omega arith) h)
