-- ===== src/Hook/Middle.antt =====
-- A call between stores into slots of the frame and loads from them, for any slots.
use vpoline.Common.{
  ℕ, ◌+◌, ◌%◌, ◌^◌, ◌≤◌, ◌<◌, ◌≡◌, ◌≢◌, refl, arith, Bool, true, false, ◌==◌, ◌&&◌, leb, [], ◌∷◌,
  Option, none, some, u64, ◌∙◌, ap, inl, inr, ◌⊎◌, ==_ne, Option-cases,
}
use vpoline.Memory.{Memory, load, store, update}
use vpoline.Memory.Laws.{load_ext, load-store_apart}
use vpoline.Hook.Callee.{HookFn, WrapperRet, syscall_hook}
use vpoline.Hook.Lines.{State, set}
use vpoline.Hook.Frame.{
  Slots, InFrame, stored, loaded, store_all, load_all, load-store_all, store_all-regs,
  load_all-regs, load_all-mem, SparesSp, from_reg, from_slot,
}
use vpoline.Hook.Call.{IsCallee, callee_saved}

-- The state after the call, from the state before the stores: the address in t1 goes to a6.
unfoldable pub after_call : Slots → (State → State) → State → State
after_call ss callee s = let t : State = store_all ss s in callee (set t 16 (t.regs 6))

-- And after the loads: the second result goes to t0.
unfoldable pub middle : (ss rs : Slots) → (State → State) → State → State
middle ss rs callee s = let c : State = after_call ss callee s in load_all rs (set c 5 (c.regs 11))

-- A slot that is loaded from where its register was stored.
abbrev same_slot : Slots → ℕ → ℕ → Bool
same_slot ss r o = elim (stored ss o) [
  | none ↦ false
  | some q ↦ q == r && (o % 8) == 0 && leb (o + 8) 304
]

-- Which registers the middle brings back to their values: those that it loads from the slot that
-- they were stored into, and those that the call keeps.
unfoldable pub brought_back : (ss rs : Slots) → ℕ → Bool
brought_back ss rs r = elim (loaded rs r) [ none ↦ callee_saved r | some o ↦ same_slot ss r o ]

callee_saved-ne : (r : ℕ) → callee_saved r ≡ true → (r ≢ 5) × (r ≢ 16)
callee_saved-ne r h = ground arith

same_slot_parts :
    (ss : Slots) (r o : ℕ)
    → same_slot ss r o ≡ true
    → (stored ss o ≡ some r) × (o % 8 ≡ 0) × (o + 8 ≤ 304)
same_slot_parts ss r o h = ground arith

module _ (hook_fn : Option HookFn) (symbol : ℕ) (callee : State → State)
    (c : IsCallee hook_fn symbol callee) (ss rs : Slots) (fit : InFrame ss) (spare : SparesSp rs)
    (s : State) (words : (r : ℕ) → s.regs r < 2 ^ 64) (room : s.regs 2 + 304 ≤ 2 ^ 64) where
  abbrev pub after : State
  after = after_call ss callee s

  after_kept : (r : ℕ) → callee_saved r ≡ true → after.regs r ≡ s.regs r
  unfolding after_call
  after_kept r h =
      c.saved _ r h
      ∙ rw (==_ne r 16 (callee_saved-ne r h).1) (ap (λ (f : ℕ → ℕ). f r) (store_all-regs ss s))

  -- A slot of the frame after the call.
  after_slot :
      (o : ℕ)
      → o % 8 ≡ 0
      → o + 8 ≤ 304
      → load 8 after.mem (s.regs 2 + o) ≡ from_reg (stored ss o) s (load 8 s.mem (s.regs 2 + o))
  unfolding after_call
  after_slot o al top =
      let sp : (store_all ss s).regs 2 ≡ s.regs 2 = ap (λ (f : ℕ → ℕ). f 2) (store_all-regs ss s) in
      load_ext 8 after.mem (store_all ss s).mem (s.regs 2 + o)
        (λ x p q. c.frame _ x (omega (arith, sp)) (omega (arith, sp)))
      ∙ load-store_all ss s o fit words room al top

  pub middle_reg :
      (r : ℕ)
      → (middle ss rs callee s).regs r
        ≡ from_slot
            (loaded rs r)
            (set after 5 (after.regs 11))
            (update after.regs 5 (after.regs 11) r)
  unfolding middle
  middle_reg r = load_all-regs rs _ r spare

  pub middle_kept :
      (r : ℕ) → brought_back ss rs r ≡ true → (middle ss rs callee s).regs r ≡ s.regs r
  unfolding brought_back
  middle_kept r h = elim (Option-cases (loaded rs r)) [
    | inl n ↦
        let k : callee_saved r ≡ true = rw (n, brought_back) at h in
        rw (middle_reg r, n, ==_ne r 5 (callee_saved-ne r k).0) (after_kept r k)
    | inr (o, e) ↦
        let p : same_slot ss r o ≡ true = rw (e, brought_back) at h in
        let (q, al, top) = same_slot_parts ss r o p in
        let place : u64 (after.regs 2 + o) ≡ s.regs 2 + o = omega (arith, after_kept 2 refl) in
        rw (middle_reg r, e, place) (after_slot o al top ∙ rw q)
  ]

  -- A register that is loaded from a slot nothing was stored into gets what the slot held.
  pub middle-loaded :
      (r o : ℕ)
      → loaded rs r ≡ some o
      → stored ss o ≡ none
      → o % 8 ≡ 0
      → o + 8 ≤ 304
      → (middle ss rs callee s).regs r ≡ load 8 s.mem (s.regs 2 + o)
  middle-loaded r o e n al top =
      let place : u64 (after.regs 2 + o) ≡ s.regs 2 + o = omega (arith, after_kept 2 refl) in
      rw (middle_reg r, e, place) (after_slot o al top ∙ rw n)

  -- Such a slot still holds it.
  pub middle_slot :
      (o : ℕ)
      → stored ss o ≡ none
      → o % 8 ≡ 0
      → o + 8 ≤ 304
      → load 8 (middle ss rs callee s).mem (s.regs 2 + o) ≡ load 8 s.mem (s.regs 2 + o)
  unfolding middle
  middle_slot o n al top =
      ap (λ (m : Memory). load 8 m (s.regs 2 + o)) (load_all-mem rs _) ∙ after_slot o al top ∙ rw n

  -- What the assembly passes to `syscall_hook`: a0 to a5 and a7 as they are, and t1 for a6.
  abbrev pub hooked : WrapperRet
  hooked =
      syscall_hook hook_fn (s.regs 10) (s.regs 11) (s.regs 12) (s.regs 13) (s.regs 14) (s.regs 15)
        (s.regs 6) (s.regs 17)

  pub after_results : (after.regs 10 ≡ hooked.value) × (after.regs 11 ≡ hooked.handled)
  unfolding after_call
  after_results = (c.value _ ∙ rw (store_all-regs ss s), c.handled _ ∙ rw (store_all-regs ss s))

  pub middle_results :
      loaded rs 10 ≡ none
      → loaded rs 5 ≡ none
      → ((middle ss rs callee s).regs 10 ≡ hooked.value)
        × ((middle ss rs callee s).regs 5 ≡ hooked.handled)
  middle_results n10 n5 =
      (rw (middle_reg 10, n10) after_results.0, rw (middle_reg 5, n5) after_results.1)

-- What lies outside the frame is not stored to.
pub load-store_all_apart :
    (l : Slots) (s : State) (a : ℕ)
    → InFrame l
    → s.regs 2 + 304 ≤ 2 ^ 64
    → (a + 8 ≤ s.regs 2) ⊎ (s.regs 2 + 304 ≤ a)
    → load 8 (store_all l s).mem a ≡ load 8 s.mem a
load-store_all_apart [] s a f room apart = refl
load-store_all_apart ((r, o) ∷ l) s a f room apart =
    let (al, top, fit) = f in
    let e : u64 (s.regs 2 + o) ≡ s.regs 2 + o = omega arith in
    load-store_all_apart l (record s { mem = store 8 s.mem (u64 (s.regs 2 + o)) (s.regs r) }) a fit
      room apart
    ∙ rw e (load-store_apart 8 8 s.mem a (s.regs 2 + o) (s.regs r) (ground arith))

-- `relocated_global_pointer` after the middle.
pub middle_global :
    (hook_fn : Option HookFn) (symbol : ℕ) (callee : State → State)
    → IsCallee hook_fn symbol callee
    → (ss rs : Slots) → InFrame ss
    → (s : State) → s.regs 2 + 304 ≤ 2 ^ 64
    → (symbol + 8 ≤ s.regs 2) ⊎ (s.regs 2 + 304 ≤ symbol)
    → load 8 (middle ss rs callee s).mem symbol ≡ load 8 s.mem symbol
unfolding middle after_call
middle_global hook_fn symbol callee c ss rs fit s room apart =
    ap (λ (m : Memory). load 8 m symbol) (load_all-mem rs _)
    ∙ c.global _
    ∙ load-store_all_apart ss s symbol fit room apart
