-- ===== src/Hook/Lines.antt =====
-- The lines of assembly that src/main.c uses, and what they do.
use vpoline.Common.{ℕ, zero, suc, ◌+◌, ◌/◌, ◌*◌, ◌^◌, true, false, ◌==◌, List, [], ◌∷◌, u64}
use vpoline.Memory.{Memory, load, store, update}

pub data Label : Type 0 where
  asm_syscall_hook handled_ecall return_prelude do_clone do_rt_sigreturn : Label

pub data Symbol : Type 0 where
  relocated_global_pointer : Symbol

-- Operands in the order of the text: `sd rs offset base` is `sd rs, offset(base)`, and `jalr r` is
-- `jalr zero, r, 0`.
pub data Asm : Type 0 where
  sd ld fsd fld : (r offset base : ℕ) → Asm
  mv : (rd rs : ℕ) → Asm
  li : (rd imm : ℕ) → Asm
  la : (rd : ℕ) → Symbol → Asm
  srli addi : (rd rs imm : ℕ) → Asm
  beq : (r1 r2 : ℕ) → Label → Asm
  beqz : ℕ → Label → Asm
  jalr : ℕ → Asm
  j : Label → Asm
  call_syscall_hook : Asm
  ebreak : Asm

pub record State : Type 0 where
  pub regs : ℕ → ℕ
  pub mem : Memory

-- The code leaves by a jump to an address, or stops.
pub data Outcome : Type 0 where
  jumped : ℕ → State → Outcome
  trapped out_of_fuel : Outcome

abbrev pub set : State → ℕ → ℕ → State
set s r v = record s { regs = update s.regs r v }

abbrev pub at : State → ℕ → ℕ → ℕ
at s offset base = u64 (s.regs base + offset)

-- A line that only changes registers and memory; `symbol` is the address of
-- `relocated_global_pointer`, and `callee` the effect of the called function.
abbrev pub line : (symbol : ℕ) → (State → State) → Asm → State → State
line symbol callee (sd r offset base) s = record s {
  mem = store 8 s.mem (at s offset base) (s.regs r);
}
line symbol callee (ld r offset base) s = set s r (load 8 s.mem (at s offset base))
line symbol callee (fsd r offset base) s = record s {
  mem = store 8 s.mem (at s offset base) (s.regs r);
}
line symbol callee (fld r offset base) s = set s r (load 8 s.mem (at s offset base))
line symbol callee (mv rd rs) s = set s rd (s.regs rs)
line symbol callee (li rd imm) s = set s rd imm
line symbol callee (la rd name) s = set s rd symbol
line symbol callee (srli rd rs imm) s = set s rd (s.regs rs / 2 ^ imm)
line symbol callee (addi rd rs imm) s = set s rd (u64 (s.regs rs + imm))
line symbol callee call_syscall_hook s = callee s
line symbol callee other s = s

module _ (symbol : ℕ) (callee : State → State) (text : Label → List Asm) where
  -- `fuel` bounds the number of labels that are entered.
  unfoldable pub run_lines : ℕ → List Asm → State → Outcome
  run_lines fuel [] s = trapped
  run_lines zero (beq r1 r2 l ∷ is) s = out_of_fuel
  run_lines (suc fuel) (beq r1 r2 l ∷ is) s = elim (s.regs r1 == s.regs r2) [
    | true ↦ run_lines fuel (text l) s
    | false ↦ run_lines (suc fuel) is s
  ]
  run_lines zero (beqz r l ∷ is) s = out_of_fuel
  run_lines (suc fuel) (beqz r l ∷ is) s = elim (s.regs r == 0) [
    | true ↦ run_lines fuel (text l) s
    | false ↦ run_lines (suc fuel) is s
  ]
  run_lines zero (j l ∷ is) s = out_of_fuel
  run_lines (suc fuel) (j l ∷ is) s = run_lines fuel (text l) s
  run_lines fuel (jalr r ∷ is) s = jumped (s.regs r / 2 * 2) s
  run_lines fuel (ebreak ∷ is) s = trapped
  run_lines fuel (i ∷ is) s = run_lines fuel is (line symbol callee i s)
