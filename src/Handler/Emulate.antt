-- ===== src/Handler/Emulate.antt =====
-- src/sigsegv_handler.c: the `emulate_*_instruction` functions. The build without DEBUG.
use vpoline.Common.{ℕ, bit_or, ◌==◌, if◌then◌else◌, sext}
use vpoline.Common.Exit.{Exit, ok, exit}
use vpoline.Memory.{Memory, update, load, store}
use vpoline.Handler.Opcodes.{
  lb_funct3, lh_funct3, lw_funct3, ld_funct3, lbu_funct3, lhu_funct3, lwu_funct3, flw_funct3,
  fld_funct3, sb_funct3, sh_funct3, sw_funct3, sd_funct3, fsw_funct3, fsd_funct3, c_fld_funct3,
  c_lw_funct3, c_ld_funct3, c_fsd_funct3, c_sw_funct3, c_sd_funct3, c_fldsp_funct3, c_lwsp_funct3,
  c_ldsp_funct3, c_fsdsp_funct3, c_swsp_funct3, c_sdsp_funct3,
}

-- `uc_mcontext`: `gregs 0` is the program counter, `gregs r` the register `r` from 1 to 31;
-- `fregs` is `__fpregs.__d.__f`.
pub record Context : Type 0 where
  pub gregs : ℕ → ℕ
  pub fregs : ℕ → ℕ

abbrev pub set_greg : Context → ℕ → ℕ → Context
set_greg ctx r v = record ctx { gregs = update ctx.gregs r v }

abbrev pub set_freg : Context → ℕ → ℕ → Context
set_freg ctx r v = record ctx { fregs = update ctx.fregs r v }

-- `emulate_load_instruction`.
unfoldable pub emulate_load_instruction :
    Context → Memory → (funct3 rd backup_addr : ℕ) → Exit (Context × Memory)
emulate_load_instruction ctx mem funct3 rd a =
    if rd == 0
    then ok (ctx, mem)
    else if funct3 == lb_funct3
    then ok (set_greg ctx rd (sext 8 (load 1 mem a)), mem)
    else if funct3 == lh_funct3
    then ok (set_greg ctx rd (sext 16 (load 2 mem a)), mem)
    else if funct3 == lw_funct3
    then ok (set_greg ctx rd (sext 32 (load 4 mem a)), mem)
    else if funct3 == ld_funct3
    then ok (set_greg ctx rd (load 8 mem a), mem)
    else if funct3 == lbu_funct3
    then ok (set_greg ctx rd (load 1 mem a), mem)
    else if funct3 == lhu_funct3
    then ok (set_greg ctx rd (load 2 mem a), mem)
    else if funct3 == lwu_funct3
    then ok (set_greg ctx rd (load 4 mem a), mem)
    else exit 1

-- `emulate_fload_instruction`.
unfoldable pub emulate_fload_instruction :
    Context → Memory → (funct3 rd backup_addr : ℕ) → Exit (Context × Memory)
emulate_fload_instruction ctx mem funct3 rd a =
    if funct3 == flw_funct3
    then ok (set_freg ctx rd (bit_or 0xffff_ffff_0000_0000 (load 4 mem a)), mem)
    else if funct3 == fld_funct3
    then ok (set_freg ctx rd (load 8 mem a), mem)
    else exit 1

-- `rs2 == 0 ? 0 : gregs[rs2]`.
abbrev pub source : Context → ℕ → ℕ
source ctx rs2 = if rs2 == 0 then 0 else ctx.gregs rs2

-- `emulate_store_instruction`; `store n` keeps the low `n` bytes, as the casts do.
unfoldable pub emulate_store_instruction :
    Context → Memory → (funct3 rs2 backup_addr : ℕ) → Exit (Context × Memory)
emulate_store_instruction ctx mem funct3 rs2 a =
    if funct3 == sb_funct3
    then ok (ctx, store 1 mem a (source ctx rs2))
    else if funct3 == sh_funct3
    then ok (ctx, store 2 mem a (source ctx rs2))
    else if funct3 == sw_funct3
    then ok (ctx, store 4 mem a (source ctx rs2))
    else if funct3 == sd_funct3
    then ok (ctx, store 8 mem a (source ctx rs2))
    else exit 1

-- `emulate_fstore_instruction`.
unfoldable pub emulate_fstore_instruction :
    Context → Memory → (funct3 rs2 backup_addr : ℕ) → Exit (Context × Memory)
emulate_fstore_instruction ctx mem funct3 rs2 a =
    if funct3 == fsw_funct3
    then ok (ctx, store 4 mem a (ctx.fregs rs2))
    else if funct3 == fsd_funct3
    then ok (ctx, store 8 mem a (ctx.fregs rs2))
    else exit 1

-- `emulate_c_load_store_instruction`.
unfoldable pub emulate_c_load_store_instruction :
    Context → Memory → (funct3 reg backup_addr : ℕ) → Exit (Context × Memory)
emulate_c_load_store_instruction ctx mem funct3 reg a =
    if funct3 == c_fld_funct3
    then ok (set_freg ctx reg (load 8 mem a), mem)
    else if funct3 == c_lw_funct3
    then ok (set_greg ctx reg (sext 32 (load 4 mem a)), mem)
    else if funct3 == c_ld_funct3
    then ok (set_greg ctx reg (load 8 mem a), mem)
    else if funct3 == c_fsd_funct3
    then ok (ctx, store 8 mem a (ctx.fregs reg))
    else if funct3 == c_sw_funct3
    then ok (ctx, store 4 mem a (ctx.gregs reg))
    else if funct3 == c_sd_funct3
    then ok (ctx, store 8 mem a (ctx.gregs reg))
    else exit 1

-- `if (rd != 0) gregs[rd] = v`.
abbrev pub set_unless_zero : Context → ℕ → ℕ → Context
set_unless_zero ctx rd v = if rd == 0 then ctx else set_greg ctx rd v

-- `emulate_sp_rel_c_load_store_instruction`.
unfoldable pub emulate_sp_rel_c_load_store_instruction :
    Context → Memory → (funct3 rd rs2 backup_addr : ℕ) → Exit (Context × Memory)
emulate_sp_rel_c_load_store_instruction ctx mem funct3 rd rs2 a =
    if funct3 == c_fldsp_funct3
    then ok (set_freg ctx rd (load 8 mem a), mem)
    else if funct3 == c_lwsp_funct3
    then ok (set_unless_zero ctx rd (sext 32 (load 4 mem a)), mem)
    else if funct3 == c_ldsp_funct3
    then ok (set_unless_zero ctx rd (load 8 mem a), mem)
    else if funct3 == c_fsdsp_funct3
    then ok (ctx, store 8 mem a (ctx.fregs rs2))
    else if funct3 == c_swsp_funct3
    then ok (ctx, store 4 mem a (source ctx rs2))
    else if funct3 == c_sdsp_funct3
    then ok (ctx, store 8 mem a (source ctx rs2))
    else exit 1
