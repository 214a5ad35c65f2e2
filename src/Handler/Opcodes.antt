-- ===== src/Handler/Opcodes.antt =====
-- src/rv_opcodes.h.
use vpoline.Common.{ℕ, List, [], ◌∷◌}

abbrev pub load_opcode : ℕ
load_opcode = 0x03

abbrev pub fload_opcode : ℕ
fload_opcode = 0x07

abbrev pub store_opcode : ℕ
store_opcode = 0x23

abbrev pub fstore_opcode : ℕ
fstore_opcode = 0x27

abbrev pub c0_opcode : ℕ
c0_opcode = 0x00

abbrev pub c2_opcode : ℕ
c2_opcode = 0x02

-- The registers that 3 bits name.
abbrev pub rvc_reg_map : List ℕ
rvc_reg_map = 8 ∷ 9 ∷ 10 ∷ 11 ∷ 12 ∷ 13 ∷ 14 ∷ 15 ∷ []

-- The FUNCT3 values of LOAD.
abbrev pub lb_funct3 : ℕ
lb_funct3 = 0x0

abbrev pub lh_funct3 : ℕ
lh_funct3 = 0x1

abbrev pub lw_funct3 : ℕ
lw_funct3 = 0x2

abbrev pub ld_funct3 : ℕ
ld_funct3 = 0x3

abbrev pub lbu_funct3 : ℕ
lbu_funct3 = 0x4

abbrev pub lhu_funct3 : ℕ
lhu_funct3 = 0x5

abbrev pub lwu_funct3 : ℕ
lwu_funct3 = 0x6

-- The FUNCT3 values of FLOAD.
abbrev pub flw_funct3 : ℕ
flw_funct3 = 0x2

abbrev pub fld_funct3 : ℕ
fld_funct3 = 0x3

-- The FUNCT3 values of STORE.
abbrev pub sb_funct3 : ℕ
sb_funct3 = 0x0

abbrev pub sh_funct3 : ℕ
sh_funct3 = 0x1

abbrev pub sw_funct3 : ℕ
sw_funct3 = 0x2

abbrev pub sd_funct3 : ℕ
sd_funct3 = 0x3

-- The FUNCT3 values of FSTORE.
abbrev pub fsw_funct3 : ℕ
fsw_funct3 = 0x2

abbrev pub fsd_funct3 : ℕ
fsd_funct3 = 0x3

-- The FUNCT3 values of the first compressed quadrant.
abbrev pub c_fld_funct3 : ℕ
c_fld_funct3 = 0x1

abbrev pub c_lw_funct3 : ℕ
c_lw_funct3 = 0x2

abbrev pub c_ld_funct3 : ℕ
c_ld_funct3 = 0x3

abbrev pub c_fsd_funct3 : ℕ
c_fsd_funct3 = 0x5

abbrev pub c_sw_funct3 : ℕ
c_sw_funct3 = 0x6

abbrev pub c_sd_funct3 : ℕ
c_sd_funct3 = 0x7

-- The FUNCT3 values of the third compressed quadrant.
abbrev pub c_fldsp_funct3 : ℕ
c_fldsp_funct3 = 0x1

abbrev pub c_lwsp_funct3 : ℕ
c_lwsp_funct3 = 0x2

abbrev pub c_ldsp_funct3 : ℕ
c_ldsp_funct3 = 0x3

abbrev pub c_fsdsp_funct3 : ℕ
c_fsdsp_funct3 = 0x5

abbrev pub c_swsp_funct3 : ℕ
c_swsp_funct3 = 0x6

abbrev pub c_sdsp_funct3 : ℕ
c_sdsp_funct3 = 0x7
