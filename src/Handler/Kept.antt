-- ===== src/Handler/Kept.antt =====
-- What an emulated access leaves as it was.
use vpoline.Common.{ℕ, ◌+◌, ◌≤◌, ◌<◌, ◌≡◌, refl, arith, Bool, false, ◌==◌, some, ap, ◌⊎◌, u64}
use vpoline.Memory.{Memory}
use vpoline.Memory.Laws.{IsBytes, store_outside}
use vpoline.Layout.{ReturnSequenceInfo}
use vpoline.Handler.{resumed, segfault_handler}
use vpoline.Handler.Emulate.{Context}
use vpoline.Handler.Isa.{
  Access, int_load, float_load, int_store, float_store, access, insn_length, perform,
}
use vpoline.Handler.Handle.{IsShadow, InShadow, backup_of, insn_at, segfault_handler-perform}
use vpoline.Handler.Redirect.{perform_pc}

-- A load into gp.
abbrev pub loads_gp : Access → Bool
loads_gp (int_load bytes signed rd) = rd == 3
loads_gp (float_load bytes rd) = false
loads_gp (int_store bytes rs2) = false
loads_gp (float_store bytes rs2) = false

-- The number of bytes.
abbrev pub width : Access → ℕ
width (int_load bytes signed rd) = bytes
width (float_load bytes rd) = bytes
width (int_store bytes rs2) = bytes
width (float_store bytes rs2) = bytes

perform_gp :
    (i : Access) (a : ℕ) (ctx : Context) (mem : Memory)
    → loads_gp i ≡ false
    → (perform i a ctx mem).0.gregs 3 ≡ ctx.gregs 3
unfolding perform
perform_gp (int_load bytes signed rd) a ctx mem e = ground arith
perform_gp (float_load bytes rd) a ctx mem e = refl
perform_gp (int_store bytes rs2) a ctx mem e = refl
perform_gp (float_store bytes rs2) a ctx mem e = refl

perform-outside :
    (i : Access) (a : ℕ) (ctx : Context) (mem : Memory) (x : ℕ)
    → (x < a) ⊎ (a + width i ≤ x)
    → (perform i a ctx mem).1 x ≡ mem x
unfolding perform
perform-outside (int_load bytes signed rd) a ctx mem x out = refl
perform-outside (float_load bytes rd) a ctx mem x out = refl
perform-outside (int_store bytes rs2) a ctx mem x out = store_outside bytes mem a _ x out
perform-outside (float_store bytes rs2) a ctx mem x out = store_outside bytes mem a _ x out

-- The program behind a fault that the handler takes over: behind the instruction, with gp and the
-- other bytes as they were.
pub record Resumed (rsi : ReturnSequenceInfo) (a : ℕ) (i : Access) (ctx : Context) (mem : Memory)
    (ctx' : Context) (mem' : Memory) : Type 0 where
  pub address : ctx'.gregs 0 ≡ u64 (ctx.gregs 0 + insn_length (insn_at ctx mem))
  pub global : ctx'.gregs 3 ≡ ctx.gregs 3
  pub others : (x : ℕ) → (x < backup_of rsi a) ⊎ (backup_of rsi a + width i ≤ x) → mem' x ≡ mem x

pub segfault_handler-Resumed :
    (rsi : ReturnSequenceInfo) (sh : IsShadow rsi) (a : ℕ) (ctx : Context) (mem : Memory)
    → IsBytes mem
    → (i : Access) → InShadow rsi a
    → access (insn_at ctx mem) ≡ some i
    → loads_gp i ≡ false
    → (ctx' : Context) × (mem' : Memory) × (segfault_handler rsi a ctx mem ≡ resumed ctx' mem')
      × Resumed rsi a i ctx mem ctx' mem'
segfault_handler-Resumed rsi sh a ctx mem bytes i inside e other =
    let target = backup_of rsi a in
    (
      _,
      _,
      segfault_handler-perform rsi sh a ctx mem bytes i inside e,
      record {
        address =
            ap (λ (t : ℕ). u64 (t + insn_length (insn_at ctx mem))) (perform_pc i target ctx mem);
        global = perform_gp i target ctx mem other;
        others = λ x out. perform-outside i target ctx mem x out;
      },
    )
