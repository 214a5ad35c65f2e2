-- ===== src/Patcher/Immediates.antt =====
-- src/patcher.c: the immediates of `lui` and `addi` load the value that they were made from.
use vpoline.Common.{
  ℕ, ◌+◌, ◌*◌, ◌/◌, ◌%◌, ◌^◌, ◌<◌, ◌≡◌, arith, ltb, if◌then◌else◌, u32, u64, sext, ◌<<<◌,
}
use vpoline.Common.Bits.{bit_and_high}
use vpoline.Machine.{lui, addi, decode}
use vpoline.Patcher.{imm_fields}

-- The 20 bits of `lui`: rounded up if the low 12 bits stand for a negative number.
abbrev pub imm20 : ℕ → ℕ
imm20 v = (if ltb 2047 (v % 4096) then v / 4096 + 1 else v / 4096) % 2 ^ 20

pub imm_fields-lui : (v : ℕ) → v < 2 ^ 32 → (imm_fields v).lui_imm_field ≡ imm20 v * 2 ^ 12
unfolding imm_fields
imm_fields-lui v h = ground (arith, bit_and_high 12 20 v)

pub imm_fields-addi :
    (v : ℕ) → v < 2 ^ 32 → u32 ((imm_fields v).addi_imm_field <<< 20) ≡ v % 4096 * 2 ^ 20
unfolding imm_fields
imm_fields-addi v h = ground (arith, bit_and_high 12 20 v)

pub decode_lui :
    (rd q : ℕ) → rd < 32 → q < 2 ^ 20 → decode (q * 2 ^ 12 + (rd * 128 + 0x37)) ≡ lui rd q
unfolding decode
decode_lui rd q h k = ground arith

pub decode_addi :
    (rd i : ℕ)
    → rd < 32
    → i < 4096
    → decode (i * 2 ^ 20 + (rd * 2 ^ 15 + rd * 128 + 0x13)) ≡ addi rd rd (sext 12 i)
unfolding decode
decode_addi rd i h k = ground arith

-- The low 32 bits of what the pair loads.
unfoldable pub loaded : ℕ → ℕ
loaded v = u64 (sext 32 (imm20 v * 2 ^ 12) + sext 12 (v % 4096))

pub loaded_low : (v : ℕ) → v < 2 ^ 32 → loaded v % 2 ^ 32 ≡ v
unfolding loaded
loaded_low v h = ground arith
