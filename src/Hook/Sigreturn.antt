-- ===== src/Hook/Sigreturn.antt =====
-- src/main.c: `asm_syscall_hook` for the system call rt_sigreturn.
use vpoline.Common.{
  ℕ, ◌+◌, ◌-◌, ◌%◌, ◌^◌, ◌≤◌, ◌≡◌, ◌≢◌, refl, arith, List, [], ◌∷◌, u64, ◌∙◌, ap, ==_ne, ◌⊎◌,
}
use vpoline.Memory.{load}
use vpoline.Memory.Laws.{IsBytes, load-lt, load-store_apart}
use vpoline.Hook.{run_hook, text}
use vpoline.Hook.Lines.{Asm, State, jumped, run_lines, beq, ld, do_rt_sigreturn, return_prelude}
use vpoline.Hook.Frame.{lines, run_lines-append, run-beq_true}
use vpoline.Hook.Path.{entered, first_lines, context_lines}
use vpoline.Hook.Leave.{Ready, prelude_way, return_offset}

abbrev temporaries : List Asm
temporaries = ld 6 8 2 ∷ ld 7 16 2 ∷ ld 28 24 2 ∷ []

module _ (symbol : ℕ) (callee : State → State) (s : State) (bytes : IsBytes s.mem)
    (room : s.regs 2 + 304 ≤ 2 ^ 64) (small : symbol + 8 ≤ 2 ^ 64)
    (apart : (symbol + 8 ≤ s.regs 2) ⊎ (s.regs 2 + 304 ≤ symbol)) where
  -- The state before the jump to `return_prelude`.
  abbrev before : State
  before = lines symbol callee text temporaries (entered symbol s)

  before_steps :
      s.regs 17 ≡ 139
      → run_hook symbol callee s ≡ run_lines symbol callee text 2 (text return_prelude) before
  unfolding run_hook run_lines
  before_steps e =
      run_lines-append symbol callee text 4 first_lines (beq 17 5 do_rt_sigreturn ∷ context_lines) s
        refl
      ∙ run-beq_true symbol callee text 3 17 5 do_rt_sigreturn context_lines (entered symbol s)
          (rw e refl)

  global : load 8 before.mem symbol ≡ load 8 s.mem symbol
  global =
      let e : u64 (s.regs 2 + 288) ≡ s.regs 2 + 288 = omega (arith, room) in
      rw e (load-store_apart 8 8 s.mem symbol (s.regs 2 + 288) (s.regs 3) (ground (arith, apart)))

  kept : (r : ℕ) → r ≢ 3 → r ≢ 5 → r ≢ 6 → r ≢ 7 → r ≢ 28 → before.regs r ≡ s.regs r
  kept r n3 n5 n6 n7 n28 =
      rw (==_ne r 3 n3, ==_ne r 5 n5, ==_ne r 6 n6, ==_ne r 7 n7, ==_ne r 28 n28)

  -- For rt_sigreturn, with a memory of bytes, a frame of 304 bytes apart from
  -- `relocated_global_pointer` and an even pointer of at least 56, the assembly calls no hook: it
  -- jumps to 40 bytes below the pointer with every register but gp and t0 to t3 as at the entry, sp
  -- too, which still points to the frame.
  pub run_hook-rt_sigreturn :
      s.regs 17 ≡ 139
      → load 8 s.mem symbol % 2 ≡ 0
      → 56 ≤ load 8 s.mem symbol
      → (t : State) × (run_hook symbol callee s ≡ jumped (load 8 s.mem symbol - 40) t)
        × ((r : ℕ) → r ≢ 3 → r ≢ 5 → r ≢ 6 → r ≢ 7 → r ≢ 28 → t.regs r ≡ s.regs r)
  unfolding return_offset
  run_hook-rt_sigreturn e even enough =
      let ready : Ready symbol callee (omega arith) before =
        rw global (load-lt 8 s.mem symbol bytes, even, enough) in
      let l = prelude_way symbol callee (omega arith) 1 before ready in
      let a7 : before.regs 17 ≡ 139 = e in
      let target : load 8 before.mem symbol - return_offset 0 (before.regs 17)
          ≡ load 8 s.mem symbol - 40 =
        rw (global, a7) refl in
      (
        l.last,
        before_steps e ∙ l.jumps ∙ ap (λ a. jumped a l.last) target,
        λ r n3 n5 n6 n7 n28. l.others r n5 ∙ kept r n3 n5 n6 n7 n28,
      )
