-- ===== src/Handler/Refinement.antt =====
-- src/sigsegv_handler.c: each emulating function has the effect that the manual gives the
-- instruction.
use vpoline.Common.{ℕ, zero, suc, ◌-◌, ◌^◌, ◌<◌, ◌≡◌, arith, Option, none, some, sext, ◌⊎◌, ◌≢◌}
use vpoline.Common.Bits.{bit_or_high}
use vpoline.Common.Exit.{Exit, ok, exit}
use vpoline.Memory.{Memory, load}
use vpoline.Memory.Laws.{IsBytes, load-lt}
use vpoline.Handler.Emulate.{
  Context, emulate_load_instruction, emulate_fload_instruction, emulate_store_instruction,
  emulate_fstore_instruction, emulate_c_load_store_instruction,
  emulate_sp_rel_c_load_store_instruction,
}
use vpoline.Handler.Isa.{Access, access_32bit, access_16bit, perform}

-- No access: the process ends with status 1.
abbrev pub effect : Option Access → ℕ → Context → Memory → Exit (Context × Memory)
effect none a ctx mem = exit 1
effect (some i) a ctx mem = ok (perform i a ctx mem)

sext_64 : (v : ℕ) → v < 2 ^ 64 → sext 64 v ≡ v
sext_64 v h = ground arith

module _ (ctx : Context) (mem : Memory) (a : ℕ) (bytes : IsBytes mem) where
  pub load_effect :
      (f rd rs2 : ℕ)
      → f < 8
      → (f ≢ 7) ⊎ (rd ≢ 0)
      → emulate_load_instruction ctx mem f rd a ≡ effect (access_32bit 3 f rd rs2) a ctx mem
  unfolding emulate_load_instruction perform
  load_effect zero rd rs2 h k = ground arith
  load_effect (suc zero) rd rs2 h k = ground arith
  load_effect (suc (suc zero)) rd rs2 h k = ground arith
  load_effect (suc (suc (suc zero))) rd rs2 h k =
      ground (arith, load-lt 8 mem a bytes, sext_64 (load 8 mem a))
  load_effect (suc (suc (suc (suc zero)))) rd rs2 h k = ground arith
  load_effect (suc (suc (suc (suc (suc zero))))) rd rs2 h k = ground arith
  load_effect (suc (suc (suc (suc (suc (suc zero)))))) rd rs2 h k = ground arith
  load_effect (suc (suc (suc (suc (suc (suc (suc f))))))) rd rs2 h k = ground arith

  pub fload_effect :
      (f rd rs2 : ℕ)
      → f < 8
      → emulate_fload_instruction ctx mem f rd a ≡ effect (access_32bit 7 f rd rs2) a ctx mem
  unfolding emulate_fload_instruction perform
  fload_effect f rd rs2 h =
      ground (arith, bit_or_high 32 (2 ^ 32 - 1) (load 4 mem a), load-lt 4 mem a bytes)

  pub store_effect :
      (f rd rs2 : ℕ)
      → f < 8
      → emulate_store_instruction ctx mem f rs2 a ≡ effect (access_32bit 0x23 f rd rs2) a ctx mem
  unfolding emulate_store_instruction perform
  store_effect f rd rs2 h = ground arith

  pub fstore_effect :
      (f rd rs2 : ℕ)
      → f < 8
      → emulate_fstore_instruction ctx mem f rs2 a ≡ effect (access_32bit 0x27 f rd rs2) a ctx mem
  unfolding emulate_fstore_instruction perform
  fstore_effect f rd rs2 h = ground arith

  -- The compressed formats name registers from 8 up, never register 0.
  pub c_effect :
      (f reg : ℕ)
      → f < 8
      → 0 < reg
      → emulate_c_load_store_instruction ctx mem f reg a ≡ effect (access_16bit f reg reg) a ctx mem
  unfolding emulate_c_load_store_instruction perform
  c_effect f reg h pos = ground (arith, load-lt 8 mem a bytes, sext_64 (load 8 mem a))

  pub c_sp_effect :
      (f rd rs2 : ℕ)
      → f < 8
      → emulate_sp_rel_c_load_store_instruction ctx mem f rd rs2 a
        ≡ effect (access_16bit f rd rs2) a ctx mem
  unfolding emulate_sp_rel_c_load_store_instruction perform
  c_sp_effect f rd rs2 h = ground (arith, load-lt 8 mem a bytes, sext_64 (load 8 mem a))
