-- ===== src/Handler/Fields.antt =====
-- The fields that the handler reads from an instruction, as remainders.
use vpoline.Common.{ℕ, zero, suc, ◌+◌, ◌/◌, ◌%◌, ◌^◌, ◌≤◌, ◌<◌, ◌≡◌, refl, arith}
use native.Mathlib.Nat.{one-le-pow}
use vpoline.Common.Bits.{bit_and_low}
use vpoline.Handler.{get_field, rvc_reg}

-- Each field that the code asks for has at most 8 bits.
pub get_field_lem :
    (instr start len : ℕ) → 2 ^ len ≤ 256 → get_field instr start len ≡ instr / 2 ^ start % 2 ^ len
unfolding get_field
get_field_lem instr start len h =
    grind (arith, bit_and_low len (instr / 2 ^ start), one-le-pow len 2 (omega arith))

pub rvc_reg_lem : (i : ℕ) → i < 8 → rvc_reg i ≡ 8 + i
unfolding rvc_reg
rvc_reg_lem zero h = refl
rvc_reg_lem (suc zero) h = refl
rvc_reg_lem (suc (suc zero)) h = refl
rvc_reg_lem (suc (suc (suc zero))) h = refl
rvc_reg_lem (suc (suc (suc (suc zero)))) h = refl
rvc_reg_lem (suc (suc (suc (suc (suc zero))))) h = refl
rvc_reg_lem (suc (suc (suc (suc (suc (suc zero)))))) h = refl
rvc_reg_lem (suc (suc (suc (suc (suc (suc (suc zero))))))) h = refl
rvc_reg_lem (suc (suc (suc (suc (suc (suc (suc (suc i)))))))) h = absurd (omega arith)
