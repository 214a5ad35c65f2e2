-- ===== src/Handler/Tests.antt =====
-- Faults at concrete instructions, and the theorems of the handler at them.
use vpoline.Common.{
  ℕ, ◌+◌, ◌%◌, ◌^◌, ◌≤◌, ◌<◌, ◌≡◌, ◌≢◌, refl, arith, ◌↔◌, some, none, true, if◌then◌else◌, ◌==◌,
  u64,
}
use vpoline.Memory.{Memory, load, store, update}
use vpoline.Memory.Laws.{IsBytes, store-IsBytes}
use vpoline.Layout.Tests.{placed, is_placed, near_start, near_start-IsPlaced}
use vpoline.Handler.{raised, exited, advance, segfault_handler, get_field, emulate_32bit}
use vpoline.Handler.Emulate.{Context, emulate_load_instruction, set_greg}
use vpoline.Handler.Isa.{int_load, access, insn_length, perform}
use vpoline.Handler.Dispatch.{is_reserved}
use vpoline.Handler.Handle.{
  IsShadow, InShadow, insn_at, segfault_handler-perform, segfault_handler-unsupported,
  segfault_handler-raised_iff,
}
use vpoline.Handler.Redirect.{
  placed-IsShadow, segfault_handler-page_below, segfault_handler-gp, segfault_handler-pc,
}
use vpoline.Handler.Reach.{reached, segfault_handler-reach_iff}

abbrev code_at : ℕ
code_at = 0x10000

abbrev empty : Memory
empty _ = 0

-- An instruction word at `code_at`, and 0xfffffff6 at 0x12804, behind the original pointer.
abbrev pub memory : ℕ → Memory
memory insn = store 4 (store 4 empty 0x12804 0xffff_fff6) code_at insn

pub memory-IsBytes : (insn : ℕ) → IsBytes (memory insn)
memory-IsBytes insn =
    store-IsBytes 4 (store 4 empty 0x12804 0xffff_fff6) code_at insn
      (store-IsBytes 4 empty 0x12804 0xffff_fff6 (λ x. omega arith))

abbrev pub context : Context
context = record { gregs = λ r. if r == 0 then code_at else r; fregs = λ r. 0 }

shadow : IsShadow placed.rsi
shadow = placed-IsShadow is_placed

-- lw a0, 4(gp)
abbrev pub lw : ℕ
lw = 0x0041_a503

lw_at : insn_at context (memory lw) ≡ lw
unfolding load store
lw_at = refl

pub access-lw : access (insn_at context (memory lw)) ≡ some (int_load 4 true 10)
unfolding load store access
access-lw = refl

-- The word behind the original global pointer, sign-extended.
lw_run :
    segfault_handler placed.rsi 0x7f00_0000_0804 context (memory lw)
    ≡ advance 4 (set_greg context 10 0xffff_ffff_ffff_fff6, memory lw)
unfolding segfault_handler emulate_32bit emulate_load_instruction get_field load store
lw_run = refl

segfault_handler-perform_example :
    segfault_handler placed.rsi 0x7f00_0000_0804 context (memory lw)
    ≡ advance
        (insn_length (insn_at context (memory lw)))
        (perform (int_load 4 true 10) 0x12804 context (memory lw))
segfault_handler-perform_example =
    segfault_handler-perform placed.rsi shadow 0x7f00_0000_0804 context (memory lw)
      (memory-IsBytes lw) (int_load 4 true 10) (omega arith) access-lw

-- amoadd.w a0, a1, (gp): not emulated.
abbrev amoadd : ℕ
amoadd = 0x00b1_a52f

access-amoadd : access (insn_at context (memory amoadd)) ≡ none
unfolding load store access
access-amoadd = refl

segfault_handler-unsupported_example :
    segfault_handler placed.rsi 0x7f00_0000_0804 context (memory amoadd) ≡ (
      if is_reserved (insn_at context (memory amoadd))
      then advance 4 (context, memory amoadd)
      else exited 1)
segfault_handler-unsupported_example =
    segfault_handler-unsupported placed.rsi shadow 0x7f00_0000_0804 context (memory amoadd)
      (memory-IsBytes amoadd) (omega arith) access-amoadd

segfault_handler-raised_iff_example :
    (segfault_handler placed.rsi 8 context (memory lw) ≡ raised) ↔ ¬ InShadow placed.rsi 8
segfault_handler-raised_iff_example =
    segfault_handler-raised_iff placed.rsi shadow 8 context (memory lw) (memory-IsBytes lw)

segfault_handler-page_below_example :
    segfault_handler near_start.rsi 0x7f00_0000_0014 context (memory lw)
    ≡ advance
        (insn_length (insn_at context (memory lw)))
        (perform (int_load 4 true 10) 0x12014 context (memory lw))
segfault_handler-page_below_example =
    segfault_handler-page_below near_start-IsPlaced (int_load 4 true 10) 0x7f00_0000_0014 0x12014
      context (memory lw) (omega arith) (omega arith) refl (memory-IsBytes lw) access-lw

segfault_handler-gp_example :
    segfault_handler placed.rsi 0x7f00_0000_0804 context (memory lw)
    ≡ advance
        (insn_length (insn_at context (memory lw)))
        (perform (int_load 4 true 10) 0x12804 context (memory lw))
segfault_handler-gp_example =
    segfault_handler-gp is_placed (int_load 4 true 10) 0x7f00_0000_0804 0x12804 context (memory lw)
      (omega arith) (omega arith) (omega arith) (memory-IsBytes lw) access-lw

after : Context
after = record context { gregs = update (update context.gregs 10 0xffff_ffff_ffff_fff6) 0 0x10004 }

segfault_handler-pc_example : (0x10004 ≡ u64 (code_at + insn_length (insn_at context (memory lw))))
unfolding after
segfault_handler-pc_example =
    segfault_handler-pc placed.rsi shadow 0x7f00_0000_0804 context (memory lw) (memory-IsBytes lw)
      (omega arith) after (memory lw) lw_run

segfault_handler-reach_iff_example :
    ((n : ℕ)
      → n < 4096
      → segfault_handler placed.rsi (reached is_placed n) context (memory lw) ≢ raised)
    ↔ ((2048 ≤ 0x12800 % 2 ^ 12) × (0x12800 % 2 ^ 12 + 2048 ≤ 2 ^ 12))
segfault_handler-reach_iff_example =
    segfault_handler-reach_iff is_placed context (memory lw) (memory-IsBytes lw)
