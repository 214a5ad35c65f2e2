-- ===== src/Handler/Redirect.antt =====
-- src/utils.c and src/sigsegv_handler.c together: an access relative to the relocated global pointer
-- reaches the bytes that it would reach relative to the original one.
use vpoline.Common.{
  ℕ, ◌+◌, ◌%◌, ◌^◌, ◌≤◌, ◌<◌, ◌≡◌, ◌↔◌, arith, Option, some, u64, ◌∙◌, ap, sym, refl, inl, inr,
  Option-cases, if◌then◌else◌,
}
use vpoline.Memory.{Memory}
use vpoline.Memory.Laws.{IsBytes}
use vpoline.Layout.{Globals, ReturnSequenceInfo}
use vpoline.Layout.Fields.{protection_size-cases, start_page}
use vpoline.Layout.Placement.{IsPlaced, placed_fields}
use vpoline.Handler.{State, exited, resumed, advance, segfault_handler}
use vpoline.Handler.Dispatch.{is_reserved}
use vpoline.Handler.Emulate.{Context}
use vpoline.Handler.Isa.{
  Access, int_load, float_load, int_store, float_store, access, insn_length, perform,
}
use vpoline.Handler.Handle.{
  IsShadow, InShadow, backup_of, insn_at, segfault_handler-perform, segfault_handler-unsupported,
}

pub perform_pc :
    (i : Access) (a : ℕ) (ctx : Context) (mem : Memory)
    → (perform i a ctx mem).0.gregs 0 ≡ ctx.gregs 0
unfolding perform
perform_pc (int_load bytes signed rd) a ctx mem = ground arith
perform_pc (float_load bytes rd) a ctx mem = refl
perform_pc (int_store bytes rs2) a ctx mem = refl
perform_pc (float_store bytes rs2) a ctx mem = refl

resumed-inj :
    (n : ℕ) (q : State) {ctx' : Context} {mem' : Memory}
    → advance n q ≡ resumed ctx' mem'
    → ctx'.gregs 0 ≡ u64 (q.0.gregs 0 + n)
resumed-inj n q e = ground arith

unsupported_pc :
    (w : ℕ) (ctx : Context) (mem : Memory) {ctx' : Context} {mem' : Memory}
    → (if is_reserved w then advance 4 (ctx, mem) else exited 1) ≡ resumed ctx' mem'
    → ctx'.gregs 0 ≡ u64 (ctx.gregs 0 + insn_length w)
unsupported_pc w ctx mem e = ground arith

-- Whenever the handler resumes after a fault in the execute-only pages, the program counter is
-- exactly behind the faulting instruction, of 2 or 4 bytes: no emulated write reaches it.
pub segfault_handler-pc :
    (rsi : ReturnSequenceInfo) (sh : IsShadow rsi) (a : ℕ) (ctx : Context) (mem : Memory)
    → IsBytes mem
    → InShadow rsi a
    → (ctx' : Context) (mem' : Memory) → segfault_handler rsi a ctx mem ≡ resumed ctx' mem'
    → ctx'.gregs 0 ≡ u64 (ctx.gregs 0 + insn_length (insn_at ctx mem))
segfault_handler-pc rsi sh a ctx mem bytes i ctx' mem' e =
    elim (Option-cases (access (insn_at ctx mem))) [
      | inl none_here ↦
          unsupported_pc (insn_at ctx mem) ctx mem
            (sym (segfault_handler-unsupported rsi sh a ctx mem bytes i none_here) ∙ e)
      | inr (x, y) ↦
          let q = perform x (backup_of rsi a) ctx mem in
          resumed-inj (insn_length (insn_at ctx mem)) q
            (sym (segfault_handler-perform rsi sh a ctx mem bytes x i y) ∙ e)
          ∙ ap (λ t. u64 (t + insn_length (insn_at ctx mem)))
              (perform_pc x (backup_of rsi a) ctx mem)
    ]

module _ {k : ℕ} {g : Globals} {mmap : ℕ → Option ℕ} {page : ℕ} {g' : Globals}
    (p : IsPlaced k g mmap page g') where
  open p use {system, mapping}

  -- The layout meets what the handler needs of it.
  pub placed-IsShadow : IsShadow g'.rsi
  placed-IsShadow = grind (
    arith,
    placed_fields p,
    protection_size-cases k g system,
    start_page k g system,
    mapping,
    system,
  )

  backup_of-gp_iff :
      (a : ℕ)
      → InShadow g'.rsi a
      → (backup_of g'.rsi a + g'.rsi.relocated_gp ≡ a + g.virtual_global_pointer)
        ↔ (56 ≤ g.virtual_global_pointer % 2 ^ k)
  backup_of-gp_iff a i = grind (arith, placed_fields p, start_page k g system, system)

  -- With the original global pointer at least 56 bytes behind the start of its page, a supported
  -- access at a distance from the relocated global pointer has the effect that it would have at the
  -- same distance from the original one.
  pub segfault_handler-gp :
      (i : Access) (a target : ℕ) (ctx : Context) (mem : Memory)
      → 56 ≤ g.virtual_global_pointer % 2 ^ k
      → InShadow g'.rsi a
      → target + g'.rsi.relocated_gp ≡ a + g.virtual_global_pointer
      → IsBytes mem
      → access (insn_at ctx mem) ≡ some i
      → segfault_handler g'.rsi a ctx mem
        ≡ advance (insn_length (insn_at ctx mem)) (perform i target ctx mem)
  segfault_handler-gp i a target ctx mem far inside same bytes e =
      let t : backup_of g'.rsi a ≡ target = omega (arith, (backup_of-gp_iff a inside).1 far) in
      rw (← t) (segfault_handler-perform g'.rsi placed-IsShadow a ctx mem bytes i inside e)

  -- With the original global pointer less than 56 bytes behind the start of its page, a supported
  -- access at a distance from the relocated global pointer has the effect that it would have one
  -- page below the byte at the same distance from the original one.
  pub segfault_handler-page_below :
      (i : Access) (a target : ℕ) (ctx : Context) (mem : Memory)
      → g.virtual_global_pointer % 2 ^ k < 56
      → InShadow g'.rsi a
      → target + 2 ^ k + g'.rsi.relocated_gp ≡ a + g.virtual_global_pointer
      → IsBytes mem
      → access (insn_at ctx mem) ≡ some i
      → segfault_handler g'.rsi a ctx mem
        ≡ advance (insn_length (insn_at ctx mem)) (perform i target ctx mem)
  segfault_handler-page_below i a target ctx mem near inside same bytes e =
      let t : backup_of g'.rsi a ≡ target =
        grind (arith, placed_fields p, start_page k g system, system, near, inside, same) in
      rw (← t) (segfault_handler-perform g'.rsi placed-IsShadow a ctx mem bytes i inside e)
