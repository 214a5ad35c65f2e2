-- ===== src/Handler.antt =====
-- src/sigsegv_handler.c, src/rv_opcodes.h: the emulation of one load or store that faulted in
-- the execute-only pages, on the copy that the program's own page still holds. The build without
-- DEBUG.
pub mod Opcodes
pub mod Emulate
pub mod Isa
pub mod Fields
pub mod Refinement
pub mod Dispatch
pub mod Handle
pub mod Redirect
pub mod Reach
pub mod Kept
pub mod Tests
use vpoline.Common.{
  ℕ, ◌+◌, ◌-◌, ◌*◌, ◌/◌, ◌%◌, ◌^◌, bit_and, Bool, true, false, ◌||◌, ltb, ◌==◌, if◌then◌else◌, u8,
  u64, sub64, ◌>>>◌, get_elem?, Option, some, none,
}
use vpoline.Common.Exit.{Exit, ok, exit, ◌>>=◌}
use vpoline.Memory.{Memory, update, load}
use vpoline.Layout.{ReturnSequenceInfo}
use Opcodes.{
  load_opcode, fload_opcode, store_opcode, fstore_opcode, c0_opcode, c2_opcode, rvc_reg_map,
}
use Emulate.{
  Context, emulate_load_instruction, emulate_fload_instruction, emulate_store_instruction,
  emulate_fstore_instruction, emulate_c_load_store_instruction,
  emulate_sp_rel_c_load_store_instruction,
}

-- `get_field`: the result is a `uint8_t`.
unfoldable pub get_field : (instr start len : ℕ) → ℕ
get_field instr start len = u8 (bit_and (instr >>> start) (2 ^ len - 1))

-- `rvc_reg_map[i]`, an array of 8 registers; a read past its end gives 0 here.
unfoldable pub rvc_reg : ℕ → ℕ
rvc_reg i = elim (get_elem? rvc_reg_map i) [ none ↦ 0 | some r ↦ r ]

abbrev pub State : Type 0
State = Context × Memory

-- How the handler ends: it returns with a new context and memory, it restores the default
-- action and raises the signal again, or it ends the process.
pub data Outcome : Type 0 where
  resumed : Context → Memory → Outcome
  raised : Outcome
  exited : ℕ → Outcome

-- The switch on the opcode of a 32-bit instruction.
unfoldable pub emulate_32bit : (instr backup_addr : ℕ) → Context → Memory → Exit State
emulate_32bit instr backup_addr ctx mem =
    let opcode = get_field instr 0 7 in
    let funct3 = get_field instr 12 3 in
    let rd = get_field instr 7 5 in
    let rs2 = get_field instr 20 5 in
    if opcode == load_opcode
    then emulate_load_instruction ctx mem funct3 rd backup_addr
    else if opcode == fload_opcode
    then emulate_fload_instruction ctx mem funct3 rd backup_addr
    else if opcode == store_opcode
    then emulate_store_instruction ctx mem funct3 rs2 backup_addr
    else if opcode == fstore_opcode
    then emulate_fstore_instruction ctx mem funct3 rs2 backup_addr
    else exit 1

-- The switch on the opcode of a compressed instruction.
unfoldable pub emulate_16bit : (c_instr backup_addr : ℕ) → Context → Memory → Exit State
emulate_16bit c_instr backup_addr ctx mem =
    let opcode = get_field c_instr 0 2 in
    let funct3 = get_field c_instr 13 3 in
    let reg = rvc_reg (get_field c_instr 2 3) in
    let rd = get_field c_instr 7 5 in
    let rs2 = get_field c_instr 2 5 in
    if opcode == c0_opcode
    then emulate_c_load_store_instruction ctx mem funct3 reg backup_addr
    else if opcode == c2_opcode
    then emulate_sp_rel_c_load_store_instruction ctx mem funct3 rd rs2 backup_addr
    else exit 1

-- `ctx->uc_mcontext.__gregs[REG_PC] += pc_step`; REG_PC is 0.
abbrev pub advance : ℕ → State → Outcome
advance pc_step (ctx, mem) =
    resumed (record ctx { gregs = update ctx.gregs 0 (u64 (ctx.gregs 0 + pc_step)) }) mem

abbrev pub finish : ℕ → Exit State → Outcome
finish pc_step (ok s) = advance pc_step s
finish pc_step (exit status) = exited status

-- `(c_instr & 0x3) == 0x3`.
abbrev pub is_32bit : ℕ → Bool
is_32bit c_instr = bit_and c_instr 3 == 3

-- `segfault_handler`; `si_addr` is the address whose access faulted.
unfoldable pub segfault_handler : ReturnSequenceInfo → (si_addr : ℕ) → Context → Memory → Outcome
segfault_handler rsi si_addr ctx mem =
    let xom_start = rsi.ret_sequence_page_addr in
    let xom_end = sub64 (u64 (xom_start + rsi.protection_size)) 1 in
    let offset = sub64 si_addr xom_start in
    let backup_addr = u64 (rsi.start_addr_page + offset) in
    let pc = ctx.gregs 0 in
    let c_instr = load 2 mem pc in
    let instr = load 4 mem pc in
    if ltb si_addr xom_start || ltb xom_end si_addr
    then raised
    else if is_32bit c_instr
    then finish 4 (emulate_32bit instr backup_addr ctx mem)
    else finish 2 (emulate_16bit c_instr backup_addr ctx mem)
