-- ===== src/Hook/Context.antt =====
-- src/main.c: what `asm_syscall_hook` hands to the return paths.
use vpoline.Common.{
  ℕ, zero, suc, ◌+◌, ◌-◌, ◌%◌, ◌^◌, ◌≤◌, ◌<◌, ◌≡◌, ◌≢◌, refl, arith, Bool, true, false, ◌==◌, ◌||◌,
  ◌&&◌, ltb, Option, none, some, u64, ◌∙◌, ap, inl, inr, ◌⊎◌, Bool-cases, ==_ne, and_parts, not,
}
use vpoline.Memory.{Memory, load}
use vpoline.Memory.Laws.{IsBytes, load-lt, store-IsBytes, load-store_8, load-store_apart}
use vpoline.Hook.{run_hook}
use vpoline.Hook.Callee.{HookFn, WrapperRet, syscall_hook, syscall_hook-handled}
use vpoline.Hook.Lines.{Outcome, State, jumped}
use vpoline.Hook.Frame.{loaded, stored}
use vpoline.Hook.Call.{
  IsCallee, save_slots, restore_slots, save_slots-InFrame, restore_slots-SparesSp,
}
use vpoline.Hook.Middle.{
  brought_back, middle_kept, middle-loaded, middle_slot, middle_results, middle_global,
}
use vpoline.Hook.Elsewhere.{IsSpared, dispatched-outside}
use vpoline.Hook.Path.{entered, dispatched, entry_steps}
use vpoline.Hook.Leave.{Left, Ready, dispatch, return_offset}

-- The registers that the return paths get as the caller had them: all but gp, t0 to t3 and a0.
abbrev pub is_kept : ℕ → Bool
is_kept r = ltb r 64 && not (r == 3 || r == 5 || r == 6 || r == 7 || r == 10 || r == 28)

-- What the assembly lets `syscall_hook` decide, from the state in which it was entered.
abbrev pub decision : Option HookFn → State → WrapperRet
decision hook_fn s =
    syscall_hook hook_fn (s.regs 10) (s.regs 11) (s.regs 12) (s.regs 13) (s.regs 14) (s.regs 15)
      (s.regs 3) (s.regs 17)

-- What the return paths need of the state `t` that is reached from `s`: the decided value in a0,
-- the caller's registers, t1 to t3 as the trampoline stored them, the return address and t0 in
-- their slots, gp at `relocated_global_pointer`, and the bytes outside the frame as they were, but
-- for what `syscall_hook` writes.
pub record Prepared (callee : State → State) (decided : WrapperRet) (global_pointer : ℕ)
    (s t : State) : Type 0 where
  pub value : t.regs 10 ≡ decided.value
  pub kept : (r : ℕ) → is_kept r ≡ true → t.regs r ≡ s.regs r
  pub temporary_1 : t.regs 6 ≡ load 8 s.mem (s.regs 2 + 8)
  pub temporary_2 : t.regs 7 ≡ load 8 s.mem (s.regs 2 + 16)
  pub temporary_3 : t.regs 28 ≡ load 8 s.mem (s.regs 2 + 24)
  pub temporary_0 : load 8 t.mem (s.regs 2 + 0) ≡ load 8 s.mem (s.regs 2 + 0)
  pub return_address : load 8 t.mem (s.regs 2 + 288) ≡ s.regs 3
  pub global : t.regs 3 ≡ global_pointer
  pub elsewhere : (x : ℕ) → IsSpared callee (s.regs 2) x → t.mem x ≡ s.mem x

-- A test that holds for all numbers below a bound.
below : (n : ℕ) → (ℕ → Bool) → Bool
below zero p = true
below (suc n) p = below n p && p n

below-elim : (n : ℕ) (p : ℕ → Bool) (r : ℕ) → below n p ≡ true → r < n → p r ≡ true
unfolding below
below-elim zero p r h l = absurd (omega arith)
below-elim (suc n) p r h l =
    let (before, last) = and_parts (below n p) (p n) h in
    elim (Bool-cases (r == n)) [
      | inl e ↦ let same : r ≡ n = ground arith in rw same last
      | inr e ↦ below-elim n p r before (ground arith)
    ]

-- `is_kept` gives `brought_back`.
kept_test : ℕ → Bool
kept_test r = not (is_kept r) || brought_back save_slots restore_slots r

kept_brought_back : (r : ℕ) → is_kept r ≡ true → brought_back save_slots restore_slots r ≡ true
unfolding kept_test below brought_back
kept_brought_back r h =
    let bound : r < 64 = ground arith in
    let t : kept_test r ≡ true = below-elim 64 kept_test r refl bound in
    cases (is_kept r) (brought_back save_slots restore_slots r) h t
  where
    cases : (a b : Bool) → a ≡ true → (not a || b) ≡ true → b ≡ true
    cases true b h t = t
    cases false b h t = cc

gp_brought_back : brought_back save_slots restore_slots 3 ≡ true
unfolding brought_back
gp_brought_back = refl

module _ (hook_fn : Option HookFn) (symbol : ℕ) (callee : State → State)
    (c : IsCallee hook_fn symbol callee) (s : State) (words : (r : ℕ) → s.regs r < 2 ^ 64)
    (bytes : IsBytes s.mem) (room : s.regs 2 + 304 ≤ 2 ^ 64) (small : symbol + 8 ≤ 2 ^ 64)
    (apart : (symbol + 8 ≤ s.regs 2) ⊎ (s.regs 2 + 304 ≤ symbol)) where
  abbrev e : State
  e = entered symbol s

  abbrev d : State
  d = dispatched symbol callee s

  slot_place : u64 (s.regs 2 + 288) ≡ s.regs 2 + 288
  slot_place = omega (arith, room)

  e_words : (r : ℕ) → e.regs r < 2 ^ 64
  e_words r = ground (
    arith,
    words r,
    words 3,
    small,
    load-lt 8 e.mem symbol (store-IsBytes 8 s.mem (u64 (s.regs 2 + 288)) (s.regs 3) bytes),
  )

  e_global : load 8 e.mem symbol ≡ load 8 s.mem symbol
  e_global =
      rw slot_place
        (load-store_apart 8 8 s.mem symbol (s.regs 2 + 288) (s.regs 3) (ground (arith, apart)))

  e_gp : e.regs 3 ≡ load 8 s.mem symbol
  e_gp =
      let there : u64 (symbol + 0) ≡ symbol = omega (arith, small) in
      ap (load 8 e.mem) there ∙ e_global

  -- The slots that the trampoline filled.
  e_slot : (o : ℕ) → o + 8 ≤ 288 → load 8 e.mem (s.regs 2 + o) ≡ load 8 s.mem (s.regs 2 + o)
  e_slot o top =
      rw slot_place
        (load-store_apart 8 8 s.mem (s.regs 2 + o) (s.regs 2 + 288) (s.regs 3) (ground arith))

  e_return : load 8 e.mem (s.regs 2 + 288) ≡ s.regs 3
  e_return = rw slot_place (load-store_8 s.mem (s.regs 2 + 288) (s.regs 3) ∙ omega (arith, words 3))

  rgp : ℕ
  rgp = load 8 s.mem symbol

  d_global : load 8 d.mem symbol ≡ rgp
  unfolding rgp
  d_global =
      middle_global hook_fn symbol callee c save_slots restore_slots save_slots-InFrame e room apart
      ∙ e_global

  d_results : (d.regs 10 ≡ (decision hook_fn s).value) × (d.regs 5 ≡ (decision hook_fn s).handled)
  d_results =
      middle_results hook_fn symbol callee c save_slots restore_slots save_slots-InFrame
        restore_slots-SparesSp e e_words room refl refl

  d_kept : (r : ℕ) → brought_back save_slots restore_slots r ≡ true → d.regs r ≡ e.regs r
  d_kept =
      middle_kept hook_fn symbol callee c save_slots restore_slots save_slots-InFrame
        restore_slots-SparesSp e e_words room

  -- t1 to t3 come from the slots that the trampoline filled.
  d_temporary :
      (r o : ℕ)
      → loaded restore_slots r ≡ some o
      → stored save_slots o ≡ none
      → o % 8 ≡ 0
      → o + 8 ≤ 288
      → d.regs r ≡ load 8 s.mem (s.regs 2 + o)
  d_temporary r o f n al top =
      middle-loaded hook_fn symbol callee c save_slots restore_slots save_slots-InFrame
        restore_slots-SparesSp e e_words room r o f n al (omega arith)
      ∙ e_slot o top

  -- The slots that the context does not use.
  d_slot :
      (o : ℕ)
      → stored save_slots o ≡ none
      → o % 8 ≡ 0
      → o + 8 ≤ 304
      → load 8 d.mem (s.regs 2 + o) ≡ load 8 e.mem (s.regs 2 + o)
  d_slot =
      middle_slot hook_fn symbol callee c save_slots restore_slots save_slots-InFrame
        restore_slots-SparesSp e e_words room

  e_kept : (r : ℕ) → is_kept r ≡ true → e.regs r ≡ s.regs r
  e_kept r h = ground arith

  prepared :
      (o : Outcome) (target : ℕ) (l : Left o target d)
      → Prepared callee (decision hook_fn s) rgp s l.last
  unfolding rgp
  prepared o target l = record {
    value = l.others 10 (omega arith) ∙ d_results.0;
    kept = λ r h. l.others r (ground arith) ∙ d_kept r (kept_brought_back r h) ∙ e_kept r h;
    temporary_1 = l.others 6 (omega arith) ∙ d_temporary 6 8 refl refl refl (omega arith);
    temporary_2 = l.others 7 (omega arith) ∙ d_temporary 7 16 refl refl refl (omega arith);
    temporary_3 = l.others 28 (omega arith) ∙ d_temporary 28 24 refl refl refl (omega arith);
    temporary_0 = rw l.memory (d_slot 0 refl refl (omega arith) ∙ e_slot 0 (omega arith));
    return_address = rw l.memory (d_slot 288 refl refl (omega arith) ∙ e_return);
    global = l.others 3 (omega arith) ∙ d_kept 3 (gp_brought_back) ∙ e_gp;
    elsewhere = λ x spared.
        ap (λ (m : Memory). m x) l.memory ∙ dispatched-outside symbol callee s room x spared;
  }

  d_handled : (d.regs 5 ≡ 0) ⊎ (d.regs 5 ≡ 1)
  d_handled = rw d_results.1 (
      syscall_hook-handled hook_fn (s.regs 10) (s.regs 11) (s.regs 12) (s.regs 13) (s.regs 14)
        (s.regs 15) (s.regs 3) (s.regs 17))

  -- For every system call but rt_sigreturn, a `syscall_hook` that keeps to the calling convention,
  -- 64-bit registers and a memory of bytes, a frame of 304 bytes apart from
  -- `relocated_global_pointer`, and an even pointer of at least 56, the assembly ends: it jumps
  -- to 56 bytes below the pointer if the hook handled the call, 20 bytes below if clone or clone3 is
  -- to be forwarded, and 40 bytes below for every other forwarded call. There a0 holds the decided
  -- value, gp the pointer, t1 to t3 what the trampoline stored, every other register but t0 its value
  -- from before, the frame still holds t0 and the return address, and no byte is changed outside
  -- the frame that `syscall_hook` does not change.
  pub run_hook-Prepared :
      s.regs 17 ≢ 139
      → load 8 s.mem symbol % 2 ≡ 0
      → 56 ≤ load 8 s.mem symbol
      → (t : State) × (run_hook symbol callee s
          ≡ jumped (load 8 s.mem symbol - return_offset (decision hook_fn s).handled (s.regs 17)) t)
        × Prepared callee (decision hook_fn s) (load 8 s.mem symbol) s t
  unfolding rgp
  run_hook-Prepared n even enough =
      let ready : Ready symbol callee (omega arith) d =
        rw d_global (load-lt 8 s.mem symbol bytes, even, enough) in
      let l = dispatch symbol callee (omega arith) 2 d ready d_handled in
      let a7 : d.regs 17 ≡ s.regs 17 = d_kept 17 (kept_brought_back 17 refl) in
      let target : load 8 d.mem symbol - return_offset (d.regs 5) (d.regs 17)
          ≡ load 8 s.mem symbol - return_offset (decision hook_fn s).handled (s.regs 17) =
        rw (d_global, d_results.1, a7) refl in
      (
        l.last,
        entry_steps symbol callee s (==_ne (s.regs 17) 139 n)
            ∙ l.jumps
            ∙ ap (λ a. jumped a l.last) target,
        prepared _ _ l,
      )
