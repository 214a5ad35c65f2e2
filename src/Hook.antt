-- ===== src/Hook.antt =====
-- src/main.c: `asm_syscall_hook`, the code between the trampoline and the return paths, as
-- a list of lines for each label.
pub mod Registers
pub mod Callee
pub mod Asked
pub mod Frame
pub mod Call
pub mod Middle
pub mod Path
pub mod Elsewhere
pub mod Leave
pub mod Context
pub mod Sigreturn
pub mod Tests
pub mod Lines
use vpoline.Common.{ℕ, ◌-◌, ◌^◌, List, [], ◌∷◌, ◌++◌}
use Registers.{
  ra, sp, gp, t0, t1, t2, a0, a1, a2, a3, a4, a5, a6, a7, t3, t4, t5, t6, fa0, fa1, fa2, fa3, fa4,
  fa5, fa6, fa7, ft0, ft1, ft2, ft3, ft4, ft5, ft6, ft7, ft8, ft9, ft10, ft11,
}
use Lines.{
  Asm, Label, Outcome, State, sd, ld, fsd, fld, mv, li, la, srli, addi, beq, beqz, jalr, j,
  call_syscall_hook, ebreak, asm_syscall_hook, handled_ecall, return_prelude, do_clone,
  do_rt_sigreturn, run_lines, relocated_global_pointer,
}

-- The lines that store the context.
abbrev pub save_context : List Asm
save_context =
    sd ra 32 sp
    ∷ sd a1 40 sp
    ∷ sd a2 48 sp
    ∷ sd a3 56 sp
    ∷ sd a4 64 sp
    ∷ sd a5 72 sp
    ∷ sd a6 80 sp
    ∷ sd a7 88 sp
    ∷ sd t4 96 sp
    ∷ sd t5 104 sp
    ∷ sd t6 112 sp
    ∷ fsd fa0 120 sp
    ∷ fsd fa1 128 sp
    ∷ fsd fa2 136 sp
    ∷ fsd fa3 144 sp
    ∷ fsd fa4 152 sp
    ∷ fsd fa5 160 sp
    ∷ fsd fa6 168 sp
    ∷ fsd fa7 176 sp
    ∷ fsd ft0 184 sp
    ∷ fsd ft1 192 sp
    ∷ fsd ft2 200 sp
    ∷ fsd ft3 208 sp
    ∷ fsd ft4 216 sp
    ∷ fsd ft5 224 sp
    ∷ fsd ft6 232 sp
    ∷ fsd ft7 240 sp
    ∷ fsd ft8 248 sp
    ∷ fsd ft9 256 sp
    ∷ fsd ft10 264 sp
    ∷ fsd ft11 272 sp
    ∷ []

-- The lines that restore it, with t1 to t3, which the trampoline stored.
abbrev pub restore_context : List Asm
restore_context =
    ld t1 8 sp
    ∷ ld t2 16 sp
    ∷ ld t3 24 sp
    ∷ ld ra 32 sp
    ∷ ld a1 40 sp
    ∷ ld a2 48 sp
    ∷ ld a3 56 sp
    ∷ ld a4 64 sp
    ∷ ld a5 72 sp
    ∷ ld a6 80 sp
    ∷ ld a7 88 sp
    ∷ ld t4 96 sp
    ∷ ld t5 104 sp
    ∷ ld t6 112 sp
    ∷ fld fa0 120 sp
    ∷ fld fa1 128 sp
    ∷ fld fa2 136 sp
    ∷ fld fa3 144 sp
    ∷ fld fa4 152 sp
    ∷ fld fa5 160 sp
    ∷ fld fa6 168 sp
    ∷ fld fa7 176 sp
    ∷ fld ft0 184 sp
    ∷ fld ft1 192 sp
    ∷ fld ft2 200 sp
    ∷ fld ft3 208 sp
    ∷ fld ft4 216 sp
    ∷ fld ft5 224 sp
    ∷ fld ft6 232 sp
    ∷ fld ft7 240 sp
    ∷ fld ft8 248 sp
    ∷ fld ft9 256 sp
    ∷ fld ft10 264 sp
    ∷ fld ft11 272 sp
    ∷ []

-- The lines before the context is stored.
abbrev pub entry_lines : List Asm
entry_lines =
    sd gp 288 sp
    ∷ mv t1 gp
    ∷ la t0 relocated_global_pointer
    ∷ ld gp 0 t0
    ∷ li t0 139
    ∷ beq a7 t0 do_rt_sigreturn
    ∷ []

-- The lines behind the restored context; `ebreak` ends the process.
abbrev pub dispatch_lines : List Asm
dispatch_lines = beqz t0 return_prelude ∷ srli t0 t0 1 ∷ beqz t0 handled_ecall ∷ ebreak ∷ []

-- The lines at each label, up to the next one.
abbrev pub text : Label → List Asm
text asm_syscall_hook =
    entry_lines
    ++ (save_context
        ++ (mv a6 t1 ∷ call_syscall_hook ∷ mv t0 a1 ∷ [] ++ (restore_context ++ dispatch_lines)))
text handled_ecall =
    la t0 relocated_global_pointer ∷ ld t0 0 t0 ∷ addi t0 t0 (2 ^ 64 - 56) ∷ jalr t0 ∷ []
text return_prelude =
    li t0 220
    ∷ beq a7 t0 do_clone
    ∷ li t0 435
    ∷ beq a7 t0 do_clone
    ∷ la t0 relocated_global_pointer
    ∷ ld t0 0 t0
    ∷ addi t0 t0 (2 ^ 64 - 40)
    ∷ jalr t0
    ∷ []
text do_clone =
    la t0 relocated_global_pointer ∷ ld t0 0 t0 ∷ addi t0 t0 (2 ^ 64 - 20) ∷ jalr t0 ∷ []
text do_rt_sigreturn = ld t1 8 sp ∷ ld t2 16 sp ∷ ld t3 24 sp ∷ j return_prelude ∷ []

-- The code from `asm_syscall_hook` on; no path passes more than three labels.
unfoldable pub run_hook : (symbol : ℕ) → (State → State) → State → Outcome
run_hook symbol callee s = run_lines symbol callee text 4 (text asm_syscall_hook) s
