-- ===== src/Machine.antt =====
-- The processor that runs the generated code, as the RISC-V manual defines it: the instructions of
-- RV64I that src/patcher.c encodes, their binary formats and their effects.
pub mod Straight
use vpoline.Common.{
  ℕ, zero, suc, ◌+◌, ◌-◌, ◌*◌, ◌/◌, ◌%◌, ◌^◌, bit_and, bit_or, Bool, true, false, ◌==◌, ◌&&◌,
  if◌then◌else◌, List, [], ◌∷◌, Option, none, some, u64, sext,
}
use vpoline.Memory.{Memory, update, load, store}

pub data Insn : Type 0 where
  lui : (rd imm20 : ℕ) → Insn
  addi ori slli : (rd rs imm : ℕ) → Insn
  and or : (rd rs1 rs2 : ℕ) → Insn
  ld : (rd base imm : ℕ) → Insn
  sd : (rs base imm : ℕ) → Insn
  jal : (rd offset : ℕ) → Insn
  jalr : (rd base imm : ℕ) → Insn
  ecall illegal : Insn

-- `calls` are the register files at the system calls made, the last one first.
pub record State : Type 0 where
  pub pc : ℕ
  pub regs : ℕ → ℕ
  pub mem : Memory
  pub calls : List (ℕ → ℕ)

-- What the kernel does with a system call: the value for a0, and the memory. By the calling
-- convention of the kernel every other register is kept.
pub record Kernel : Type 0 where
  pub result : (ℕ → ℕ) → Memory → ℕ
  pub memory : (ℕ → ℕ) → Memory → Memory

-- A 12-bit immediate, sign-extended to 64 bits.
abbrev pub imm12 : ℕ → ℕ
imm12 w = sext 12 w

-- The format of a 32-bit word.
unfoldable pub decode : ℕ → Insn
decode w =
    let opcode = w % 128 in
    let rd = w / 2 ^ 7 % 32 in
    let funct3 = w / 2 ^ 12 % 8 in
    let rs1 = w / 2 ^ 15 % 32 in
    let rs2 = w / 2 ^ 20 % 32 in
    let imm_i = imm12 (w / 2 ^ 20) in
    let imm_s = imm12 (w / 2 ^ 25 * 32 + rd) in
    let imm_j = sext 21 (
      w / 2 ^ 31 * 2 ^ 20
      + w / 2 ^ 12 % 2 ^ 8 * 2 ^ 12
      + w / 2 ^ 20 % 2 * 2 ^ 11
      + w / 2 ^ 21 % 2 ^ 10 * 2) in
    if opcode == 0x37
    then lui rd (w / 2 ^ 12)
    else if opcode == 0x13 && funct3 == 0
    then addi rd rs1 imm_i
    else if opcode == 0x13 && funct3 == 6
    then ori rd rs1 imm_i
    else if opcode == 0x13 && funct3 == 1 && (w / 2 ^ 26) == 0
    then slli rd rs1 (w / 2 ^ 20 % 64)
    else if opcode == 0x33 && funct3 == 7 && (w / 2 ^ 25) == 0
    then and rd rs1 rs2
    else if opcode == 0x33 && funct3 == 6 && (w / 2 ^ 25) == 0
    then or rd rs1 rs2
    else if opcode == 0x03 && funct3 == 3
    then ld rd rs1 imm_i
    else if opcode == 0x23 && funct3 == 3
    then sd rs2 rs1 imm_s
    else if opcode == 0x6f
    then jal rd imm_j
    else if opcode == 0x67 && funct3 == 0
    then jalr rd rs1 imm_i
    else if w == 0x73
    then ecall
    else illegal

-- Register 0 reads as 0 and cannot be written.
abbrev pub get : State → ℕ → ℕ
get s r = if r == 0 then 0 else s.regs r

abbrev pub set_reg : (ℕ → ℕ) → ℕ → ℕ → ℕ → ℕ
set_reg regs r v = if r == 0 then regs else update regs r v

abbrev pub set : State → ℕ → ℕ → State
set s r v = record s { regs = set_reg s.regs r v }

-- The effect of an instruction on registers and memory.
abbrev pub apply : Insn → State → State
apply (lui rd imm20) s = set s rd (sext 32 (imm20 * 2 ^ 12))
apply (addi rd rs imm) s = set s rd (u64 (get s rs + imm))
apply (ori rd rs imm) s = set s rd (bit_or (get s rs) imm)
apply (slli rd rs imm) s = set s rd (u64 (get s rs * 2 ^ imm))
apply (and rd rs1 rs2) s = set s rd (bit_and (get s rs1) (get s rs2))
apply (or rd rs1 rs2) s = set s rd (bit_or (get s rs1) (get s rs2))
apply (ld rd base imm) s = set s rd (load 8 s.mem (u64 (get s base + imm)))
apply (sd rs base imm) s = record s { mem = store 8 s.mem (u64 (get s base + imm)) (get s rs) }
apply (jal rd offset) s = set s rd (u64 (s.pc + 4))
apply (jalr rd base imm) s = set s rd (u64 (s.pc + 4))
apply ecall s = s
apply illegal s = s

abbrev pub go : ℕ → State → State
go a s = record s { pc = a }

-- One instruction; `none` is an exception.
abbrev pub exec : Kernel → Insn → State → Option State
exec k (jal rd offset) s = some (go (u64 (s.pc + offset)) (apply (jal rd offset) s))
exec k (jalr rd base imm) s =
    some (go (u64 (get s base + imm) / 2 * 2) (apply (jalr rd base imm) s))
exec k ecall s = some (record s {
  pc = u64 (s.pc + 4);
  regs = update s.regs 10 (k.result s.regs s.mem);
  mem = k.memory s.regs s.mem;
  calls = s.regs ∷ s.calls;
})
exec k illegal s = none
exec k i s = some (go (u64 (s.pc + 4)) (apply i s))

module _ (k : Kernel) (fetch : ℕ → ℕ) where
  -- `n` instructions from `s`; `fetch a` is the word at `a` in the executable pages, which no
  -- store reaches.
  unfoldable pub run : ℕ → State → Option State
  run zero s = some s
  run (suc n) s = elim (exec k (decode (fetch s.pc)) s) [ none ↦ none | some s' ↦ run n s' ]
