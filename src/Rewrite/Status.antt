-- ===== src/Rewrite/Status.antt =====
-- src/main.c: the errors of `disassemble_and_rewrite`.
use vpoline.Common.{
  ap, ◌&&◌, ◌+◌, u64, sub64, Option-cases, ℕ, zero, suc, ◌≡◌, refl, arith, Bool, true, false, leb,
  Option, ◌⊎◌, none, some, sym, ◌∙◌, inl, inr, Bool-cases,
}
use vpoline.Common.Exit.{Exit, ok, exit, some-inj}
use vpoline.Memory.{Memory}
use vpoline.Rewrite.{
  Capstone, InterceptDisasmContext, InterceptDisasmResult, Mprotect, intercept_disasm_init,
  intercept_disasm_next_instruction, rewrite_instruction, rewrite_loop, disassemble_and_rewrite,
  after_loop,
}

-- Where a computation ends the process, the status is EXIT_FAILURE.
abbrev pub Fails : (o : Option (Exit Memory)) → Type 0
Fails o = (status : ℕ) → o ≡ some (exit status) → status ≡ 1

next_instruction-exit :
    (cs : Capstone) (context : InterceptDisasmContext) (m : Memory) (code status : ℕ)
    → intercept_disasm_next_instruction cs context m code ≡ exit status
    → status ≡ 1
unfolding intercept_disasm_next_instruction
next_instruction-exit cs context m code status e = ground arith

pub Exit-cases :
    (x : Exit InterceptDisasmResult)
    → ((status : ℕ) × (x ≡ exit status)) ⊎ ((r : InterceptDisasmResult) × (x ≡ ok r))
Exit-cases (exit status) = inl (status, refl)
Exit-cases (ok r) = inr (r, refl)

pub rewrite_loop-over :
    (cs : Capstone) (context : InterceptDisasmContext) (fuel code : ℕ) (m : Memory)
    → leb code context.end_address ≡ false
    → rewrite_loop cs context fuel code m ≡ some (ok m)
unfolding rewrite_loop
rewrite_loop-over cs context zero code m over = rw (rewrite_loop, over) refl
rewrite_loop-over cs context (suc fuel) code m over = rw (rewrite_loop, over) refl

pub loop_exit :
    (cs : Capstone) (context : InterceptDisasmContext) (fuel code status : ℕ) (m : Memory)
    → leb code context.end_address ≡ true
    → intercept_disasm_next_instruction cs context m code ≡ exit status
    → rewrite_loop cs context (suc fuel) code m ≡ some (exit status)
unfolding rewrite_loop
loop_exit cs context fuel code status m more e = rw (rewrite_loop, more, e) refl

pub loop_next :
    (cs : Capstone) (context : InterceptDisasmContext) (fuel code : ℕ) (m : Memory)
    (r : InterceptDisasmResult)
    → leb code context.end_address ≡ true
    → intercept_disasm_next_instruction cs context m code ≡ ok r
    → rewrite_loop cs context (suc fuel) code m
      ≡ (let next = rewrite_instruction code m r in rewrite_loop cs context fuel next.0 next.1)
unfolding rewrite_loop
loop_next cs context fuel code m r more e = rw (rewrite_loop, more, e) refl

rewrite_loop-Fails :
    (cs : Capstone) (context : InterceptDisasmContext) (fuel code : ℕ) (m : Memory)
    → Fails (rewrite_loop cs context fuel code m)
unfolding rewrite_loop
rewrite_loop-Fails cs context zero code m status e =
    elim (Bool-cases (leb code context.end_address)) [ inl more ↦ absurd cc | inr over ↦ absurd cc ]
rewrite_loop-Fails cs context (suc fuel) code m status e =
    elim (Bool-cases (leb code context.end_address)) [
      | inr over ↦ let last = rewrite_loop-over cs context (suc fuel) code m over in absurd cc
      | inl more ↦ elim (Exit-cases (intercept_disasm_next_instruction cs context m code)) [
        | inl (first, failed) ↦
            let last = loop_exit cs context fuel code first m more failed in
            let same : status ≡ first = cc in
            same ∙ next_instruction-exit cs context m code first failed
        | inr (r, found) ↦
            let next = rewrite_instruction code m r in
            rewrite_loop-Fails cs context fuel next.0 next.1 status
              (sym (loop_next cs context fuel code m r more found) ∙ e)
      ]
    ]

after_loop-exit :
    (granted : Bool) (r : Exit Memory) (status : ℕ)
    → after_loop granted r ≡ exit status
    → (r ≡ exit status) ⊎ (status ≡ 1)
after_loop-exit granted (exit first) status e = inl e
after_loop-exit true (ok m) status e = absurd cc
after_loop-exit false (ok m) status e = inr cc

module _ (cs : Capstone) (mprotect : Mprotect → Bool) (code code_size mem_prot : ℕ)
    (m : Memory) where
  abbrev is_ready : Bool
  is_ready = cs.cs_open && cs.cs_option_detail && cs.cs_option_mem && cs.cs_malloc

  abbrev range : InterceptDisasmContext
  range = record { begin_address = code; end_address = sub64 (u64 (code + code_size)) 1 }

  -- The loop runs with both set-ups behind it.
  looped :
      mprotect (record { addr = code; len = code_size; prot = 7 }) ≡ true
      → is_ready ≡ true
      → disassemble_and_rewrite cs mprotect code code_size mem_prot m
        ≡ (elim (rewrite_loop cs range code_size code m) [
          | none ↦ none
          | some result ↦ some (
              after_loop
                (mprotect (record { addr = code; len = code_size; prot = mem_prot }))
                result)
        ])
  unfolding disassemble_and_rewrite intercept_disasm_init
  looped granted ready = rw (disassemble_and_rewrite, granted, intercept_disasm_init, ready) refl

  pub disassemble_and_rewrite-Fails :
      Fails (disassemble_and_rewrite cs mprotect code code_size mem_prot m)
  unfolding disassemble_and_rewrite intercept_disasm_init
  disassemble_and_rewrite-Fails status e =
      elim (Bool-cases (mprotect (record { addr = code; len = code_size; prot = 7 }))) [
        | inr refused ↦
            let x : disassemble_and_rewrite cs mprotect code code_size mem_prot m ≡ some (exit 1) =
              rw (disassemble_and_rewrite, refused) refl in
            cc
        | inl granted ↦ elim (Bool-cases is_ready) [
          | inr unready ↦
              let x : disassemble_and_rewrite cs mprotect code code_size mem_prot m
                  ≡ some (exit 1) =
                rw (disassemble_and_rewrite, granted, intercept_disasm_init, unready) refl in
              cc
          | inl ready ↦
              let x = looped granted ready in
              elim (Option-cases (rewrite_loop cs range code_size code m)) [
                | inl stuck ↦
                    let y : disassemble_and_rewrite cs mprotect code code_size mem_prot m ≡ none =
                      rw (x, stuck) refl in
                    absurd cc
                | inr (result, runs) ↦
                    let granted' =
                      mprotect (record { addr = code; len = code_size; prot = mem_prot }) in
                    let y : disassemble_and_rewrite cs mprotect code code_size mem_prot m
                        ≡ some (after_loop granted' result) =
                      rw (x, runs) refl in
                    elim (after_loop-exit granted' result status (some-inj (sym y ∙ e))) [
                      | inl z ↦
                          rewrite_loop-Fails cs range code_size code m status (runs ∙ ap some z)
                      | inr one ↦ one
                    ]
              ]
        ]
      ]
