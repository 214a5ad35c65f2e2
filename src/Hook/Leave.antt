-- ===== src/Hook/Leave.antt =====
-- src/main.c: the lines behind the restored context, up to the jump into the return paths.
use vpoline.Common.{
  ℕ, zero, suc, ◌+◌, ◌-◌, ◌*◌, ◌/◌, ◌%◌, ◌^◌, ◌≤◌, ◌<◌, ◌≡◌, ◌≢◌, refl, arith, ◌==◌, ◌||◌, List, [],
  ◌∷◌, ◌++◌, u64, ◌∙◌, ap, inl, inr, ◌⊎◌, Bool-cases, ==_ne, if◌then◌else◌,
}
use vpoline.Memory.{load}
use vpoline.Hook.{dispatch_lines, text}
use vpoline.Hook.Lines.{
  Asm, Outcome, State, jumped, run_lines, set, la, ld, li, addi, srli, beq, jalr, handled_ecall,
  return_prelude, do_clone, relocated_global_pointer,
}
use vpoline.Hook.Frame.{
  lines, run_lines-append, run-beq_false, run-beq_true, run-beqz_false, run-beqz_true,
}

-- The last lines of each way out: the jump to `below` bytes below `relocated_global_pointer`.
abbrev address_lines : ℕ → List Asm
address_lines below = la 5 relocated_global_pointer ∷ ld 5 0 5 ∷ addi 5 5 (2 ^ 64 - below) ∷ []

-- How far below: past the ecall when the hook handled the call, the whole return sequence for
-- clone and clone3, and the part that starts with the ecall for all else.
unfoldable pub return_offset : (handled a7 : ℕ) → ℕ
return_offset handled a7 =
    if handled == 1 then 56 else if (a7 == 220) || (a7 == 435) then 20 else 40

-- What the jump leaves as it was: all but t0.
pub record Left (o : Outcome) (target : ℕ) (s : State) : Type 0 where
  pub last : State
  pub jumps : o ≡ jumped target last
  pub memory : last.mem ≡ s.mem
  pub others : (r : ℕ) → r ≢ 5 → last.regs r ≡ s.regs r

Left-from : (o : Outcome) (target v : ℕ) (s : State) → Left o target (set s 5 v) → Left o target s
Left-from o target v s l = record {
  last = l.last;
  jumps = l.jumps;
  memory = l.memory;
  others = λ r n. l.others r n ∙ rw (==_ne r 5 n);
}

Left-by : (o o' : Outcome) (target : ℕ) (s : State) → o ≡ o' → Left o' target s → Left o target s
Left-by o o' target s e l = record {
  last = l.last;
  jumps = e ∙ l.jumps;
  memory = l.memory;
  others = l.others;
}

Left-to : {a b : ℕ} → (o : Outcome) → a ≡ b → (s : State) → Left o a s → Left o b s
Left-to {a} {b} o e s l = record {
  last = l.last;
  jumps = l.jumps ∙ ap (λ target. jumped target l.last) e;
  memory = l.memory;
  others = l.others;
}

module _ (symbol : ℕ) (callee : State → State) where
  run-jalr :
      (fuel r : ℕ) (s : State)
      → run_lines symbol callee text fuel (jalr r ∷ []) s ≡ jumped (s.regs r / 2 * 2) s
  unfolding run_lines
  run-jalr zero r s = refl
  run-jalr (suc fuel) r s = refl

  address :
      (fuel below : ℕ) (s : State)
      → symbol < 2 ^ 64
      → load 8 s.mem symbol < 2 ^ 64
      → load 8 s.mem symbol % 2 ≡ 0
      → below % 2 ≡ 0
      → below ≤ load 8 s.mem symbol
      → below ≤ 56
      → Left
          (run_lines symbol callee text fuel (address_lines below ++ (jalr 5 ∷ [])) s)
          (load 8 s.mem symbol - below)
          s
  address fuel below s small word even even' enough short =
      let t : State = lines symbol callee text (address_lines below) s in
      let there : u64 (symbol + 0) ≡ symbol = omega arith in
      let target : t.regs 5 / 2 * 2 ≡ load 8 s.mem symbol - below = rw there (omega arith) in
      record {
        last = t;
        jumps =
            run_lines-append symbol callee text fuel (address_lines below) (jalr 5 ∷ []) s refl
            ∙ run-jalr fuel 5 t
            ∙ ap (λ a. jumped a t) target;
        memory = refl;
        others = λ r n. rw (==_ne r 5 n);
      }

  module _ (small : symbol < 2 ^ 64) where
    -- The state in which the ways out start.
    abbrev pub Ready : State → Type 0
    Ready s =
        (load 8 s.mem symbol < 2 ^ 64) × (load 8 s.mem symbol % 2 ≡ 0) × (56 ≤ load 8 s.mem symbol)

    clone_way :
        (fuel : ℕ) (s : State)
        → Ready s
        → Left (run_lines symbol callee text fuel (text do_clone) s) (load 8 s.mem symbol - 20) s
    clone_way fuel s (word, even, enough) =
        address fuel 20 s small word even refl (omega arith) (omega arith)

    -- The lines behind the comparison with the number of clone3.
    not_clone_way :
        (fuel : ℕ) (s : State)
        → Ready s
        → Left
            (run_lines symbol callee text
              (suc fuel)
              (li 5 435 ∷ beq 17 5 do_clone ∷ (address_lines 40 ++ (jalr 5 ∷ [])))
              s)
            (load 8 s.mem symbol - (if s.regs 17 == 435 then 20 else 40))
            s
    not_clone_way fuel s (word, even, enough) =
        let t : State = set s 5 435 in
        Left-from _ _ 435 s (elim (Bool-cases (s.regs 17 == 435)) [
          | inl e ↦
              Left-by _ _ _ t
                (run_lines-append symbol callee text (suc fuel) (li 5 435 ∷ []) _ s refl
                  ∙ run-beq_true symbol callee text fuel 17 5 do_clone _ t e)
                (rw e (clone_way fuel t (word, even, enough)))
          | inr e ↦
              Left-by _ _ _ t
                (run_lines-append symbol callee text (suc fuel) (li 5 435 ∷ []) _ s refl
                  ∙ run-beq_false symbol callee text fuel 17 5 do_clone _ t e)
                (rw e (address (suc fuel) 40 t small word even refl (omega arith) (omega arith)))
        ])

    -- The way of a call that the kernel still has to make.
    pub prelude_way :
        (fuel : ℕ) (s : State)
        → Ready s
        → Left
            (run_lines symbol callee text (suc fuel) (text return_prelude) s)
            (load 8 s.mem symbol - return_offset 0 (s.regs 17))
            s
    unfolding return_offset
    prelude_way fuel s ready =
        let t : State = set s 5 220 in
        Left-from _ _ 220 s (elim (Bool-cases (s.regs 17 == 220)) [
          | inl e ↦
              Left-by _ _ _ t
                (run_lines-append symbol callee text (suc fuel) (li 5 220 ∷ []) _ s refl
                  ∙ run-beq_true symbol callee text fuel 17 5 do_clone _ t e)
                (rw e (clone_way fuel t ready))
          | inr e ↦
              Left-by _ _ _ t
                (run_lines-append symbol callee text (suc fuel) (li 5 220 ∷ []) _ s refl
                  ∙ run-beq_false symbol callee text fuel 17 5 do_clone _ t e)
                (rw e (not_clone_way fuel t ready))
        ])

    handled_way :
        (fuel : ℕ) (s : State)
        → Ready s
        → Left
            (run_lines symbol callee text fuel (text handled_ecall) s)
            (load 8 s.mem symbol - 56)
            s
    handled_way fuel s (word, even, enough) =
        address fuel 56 s small word even refl enough (omega arith)

    -- What `syscall_hook` reported is in t0.
    pub dispatch :
        (fuel : ℕ) (s : State)
        → Ready s
        → (s.regs 5 ≡ 0) ⊎ (s.regs 5 ≡ 1)
        → Left
            (run_lines symbol callee text (suc (suc fuel)) dispatch_lines s)
            (load 8 s.mem symbol - return_offset (s.regs 5) (s.regs 17))
            s
    unfolding return_offset
    dispatch fuel s ready (inl none) =
        Left-by _ _ _ s
          (run-beqz_true symbol callee text (suc fuel) 5 return_prelude _ s (ground arith))
          (rw none (prelude_way fuel s ready))
    dispatch fuel s ready (inr one) =
        let t : State = set s 5 (s.regs 5 / 2 ^ 1) in
        let offset : 56 ≡ return_offset (s.regs 5) (s.regs 17) = rw one refl in
        Left-from _ _ (s.regs 5 / 2 ^ 1) s (
          Left-by _ _ _ t
            (run-beqz_false symbol callee text (suc fuel) 5 return_prelude _ s (ground arith)
              ∙ run_lines-append symbol callee text (suc (suc fuel)) (srli 5 5 1 ∷ []) _ s refl
              ∙ run-beqz_true symbol callee text (suc fuel) 5 handled_ecall _ t (rw one refl))
            (Left-to _ (ap (λ o. load 8 s.mem symbol - o) offset) t
              (handled_way (suc fuel) t ready)))
