-- ===== src/Handler/Isa.antt =====
-- What the RISC-V manual says of the loads and stores of RV64I, F, D and C, independently of the
-- code: the format of the instruction gives an access, and an access has an effect.
use vpoline.Common.{
  ℕ, ◌+◌, ◌-◌, ◌*◌, ◌/◌, ◌%◌, ◌^◌, Bool, true, Option, none, some, ltb, ◌==◌, if◌then◌else◌, sext,
}
use vpoline.Memory.{Memory, load, store}
use vpoline.Handler.Emulate.{Context, set_greg, set_freg}

-- A load or a store of a number of bytes, on an integer or a floating-point register.
pub data Access : Type 0 where
  int_load : (bytes : ℕ) (signed : Bool) (rd : ℕ) → Access
  float_load : (bytes rd : ℕ) → Access
  int_store : (bytes rs2 : ℕ) → Access
  float_store : (bytes rs2 : ℕ) → Access

-- 32-bit formats: the width is 2 to the low bits of funct3, and its high bit means unsigned.
abbrev pub access_32bit : (opcode funct3 rd rs2 : ℕ) → Option Access
access_32bit opcode funct3 rd rs2 =
    if opcode == 0x03
    then (if ltb funct3 7 then some (int_load (2 ^ (funct3 % 4)) (ltb funct3 4) rd) else none)
    else if opcode == 0x07
    then (if (funct3 / 2) == 1 then some (float_load (2 ^ funct3) rd) else none)
    else if opcode == 0x23
    then (if ltb funct3 4 then some (int_store (2 ^ funct3) rs2) else none)
    else if opcode == 0x27
    then (if (funct3 / 2) == 1 then some (float_store (2 ^ funct3) rs2) else none)
    else none

-- Compressed formats: the high bit of funct3 tells a store from a load, and the low two bits
-- give the kind: 1 a double, 2 a word, 3 a doubleword.
abbrev pub access_16bit : (funct3 rd rs2 : ℕ) → Option Access
access_16bit funct3 rd rs2 =
    if funct3 == 1
    then some (float_load 8 rd)
    else if funct3 == 2
    then some (int_load 4 true rd)
    else if funct3 == 3
    then some (int_load 8 true rd)
    else if funct3 == 5
    then some (float_store 8 rs2)
    else if funct3 == 6
    then some (int_store 4 rs2)
    else if funct3 == 7
    then some (int_store 8 rs2)
    else none

-- The access of the instruction in the low bits of `w`.
unfoldable pub access : ℕ → Option Access
access w =
    if (w % 4) == 3
    then access_32bit (w % 128) (w / 2 ^ 12 % 8) (w / 2 ^ 7 % 32) (w / 2 ^ 20 % 32)
    else if (w % 4) == 0
    then access_16bit (w / 2 ^ 13 % 8) (8 + w / 2 ^ 2 % 8) (8 + w / 2 ^ 2 % 8)
    else if (w % 4) == 2
    then access_16bit (w / 2 ^ 13 % 8) (w / 2 ^ 7 % 32) (w / 2 ^ 2 % 32)
    else none

-- The length of the instruction in the low bits of `w`.
abbrev pub insn_length : ℕ → ℕ
insn_length w = if (w % 4) == 3 then 4 else 2

-- Register 0 reads as 0 and cannot be written.
abbrev pub read_x : Context → ℕ → ℕ
read_x ctx r = if r == 0 then 0 else ctx.gregs r

abbrev pub write_x : Context → ℕ → ℕ → Context
write_x ctx r v = if r == 0 then ctx else set_greg ctx r v

-- A narrower float fills the high half of the register with ones.
abbrev pub nan_box : ℕ → ℕ → ℕ
nan_box bytes v = if bytes == 4 then 2 ^ 64 - 2 ^ 32 + v else v

-- The effect of an access at an address.
unfoldable pub perform : Access → ℕ → Context → Memory → Context × Memory
perform (int_load bytes signed rd) a ctx mem =
    let v : ℕ = load bytes mem a in (write_x ctx rd (if signed then sext (8 * bytes) v else v), mem)
perform (float_load bytes rd) a ctx mem = (set_freg ctx rd (nan_box bytes (load bytes mem a)), mem)
perform (int_store bytes rs2) a ctx mem = (ctx, store bytes mem a (read_x ctx rs2))
perform (float_store bytes rs2) a ctx mem = (ctx, store bytes mem a (ctx.fregs rs2))
