-- ===== src/Interception/Returned.antt =====
-- From the trampoline to the state that the hook entry finds, and from the state that it leaves
-- over a return path.
use vpoline.Common.{
  ℕ, ◌+◌, ◌-◌, ◌*◌, ◌/◌, ◌%◌, ◌^◌, ◌≤◌, ◌<◌, ◌≡◌, ◌≢◌, refl, arith, ◌==◌, some, Option, u64, ◌∙◌,
  ap, Bool-cases, ◌⊎◌, inl, inr, [], ◌∷◌, ==_ne,
}
use vpoline.Memory.{Memory, load, update}
use vpoline.Memory.Laws.{IsBytes, store-IsBytes}
use vpoline.Machine.{State, Kernel}
use vpoline.Patcher.Trampoline.{Enters, saved}
use vpoline.Patcher.Return.{frame_ra, frame_t0, unwind, leave, syscall}
use vpoline.Hook.Callee.{HookFn, WrapperRet}
use vpoline.Hook.Lines as Lines
use vpoline.Hook.Frame.{Slots, InFrame, stored, store_all, load-store_all}
use vpoline.Hook.Middle.{load-store_all_apart}
use vpoline.Hook.Elsewhere.{IsSpared, store_all-outside}
use vpoline.Hook.Context.{Prepared, decision}
use vpoline.Interception.{hook_state}

pub update_ne : (f : ℕ → ℕ) (a v r : ℕ) → r ≢ a → update f a v r ≡ f r
update_ne f a v r n = rw (==_ne r a n)

-- What the pieces of a return path leave alone.
pub unwind_other : (v : State) (r : ℕ) → r ≢ 2 → r ≢ 3 → r ≢ 5 → (unwind v).regs r ≡ v.regs r
unwind_other v r n2 n3 n5 = rw (==_ne r 2 n2, ==_ne r 3 n3, ==_ne r 5 n5)

pub leave-syscall_other :
    (k : Kernel) (gp : ℕ) (v : State) (r : ℕ)
    → r ≢ 3
    → r ≢ 10
    → (leave gp (syscall k v)).regs r ≡ v.regs r
leave-syscall_other k gp v r n3 n10 = rw (==_ne r 3 n3, ==_ne r 10 n10)

-- The stores of the trampoline, as slots of the frame.
abbrev slots : Slots
slots = (5, 0) ∷ (6, 8) ∷ (7, 16) ∷ (28, 24) ∷ []

slots-InFrame : InFrame slots
slots-InFrame = omega arith

abbrev framed : State → Lines.State
framed s = record { regs = update s.regs 2 (u64 (s.regs 2 + (2 ^ 64 - 304))); mem = s.mem }

saved_slots : (s : State) → saved s ≡ (store_all slots (framed s)).mem
saved_slots s = refl

pub saved-IsBytes : (s : State) → IsBytes s.mem → IsBytes (saved s)
saved-IsBytes s b = store-IsBytes 8 _ _ (s.regs 28) (
    store-IsBytes 8 _ _ (s.regs 7)
      (store-IsBytes 8 _ _ (s.regs 6) (store-IsBytes 8 s.mem _ (s.regs 5) b)))

framed_words : (s : State) → ((r : ℕ) → s.regs r < 2 ^ 64) → (r : ℕ) → (framed s).regs r < 2 ^ 64
framed_words s w r = ground (arith, w r)

-- The caller after the call: behind the replaced `ecall`, with the decided value in a0 and gp at the
-- relocated global pointer, all else as it was, and no system call made.
pub record Returned (callee : Lines.State → Lines.State) (global_pointer value : ℕ) (s u : State)
    : Type 0 where
  pub address : u.pc ≡ s.regs 3 / 2 * 2
  pub result : u.regs 10 ≡ value
  pub global : u.regs 3 ≡ global_pointer
  pub kept : (r : ℕ) → r < 64 → r ≢ 3 → r ≢ 10 → u.regs r ≡ s.regs r
  pub calls : u.calls ≡ s.calls
  pub elsewhere : (x : ℕ) → IsSpared callee (s.regs 2 - 304) x → u.mem x ≡ s.mem x

-- The caller after a call that the kernel made: as in `Returned`, but the kernel has been called
-- once, with registers that are the caller's where `Seen` holds, and the result and the memory are
-- its.
pub record Called (k : Kernel) (callee : Lines.State → Lines.State) (Seen : ℕ → Type 0)
    (global_pointer : ℕ) (s u : State) : Type 0 where
  pub registers : ℕ → ℕ
  pub memory : Memory
  pub sees : (r : ℕ) → r < 64 → Seen r → registers r ≡ s.regs r
  pub elsewhere : (x : ℕ) → IsSpared callee (s.regs 2 - 304) x → memory x ≡ s.mem x
  pub calls : u.calls ≡ registers ∷ s.calls
  pub result : u.regs 10 ≡ k.result registers memory
  pub written : u.mem ≡ k.memory registers memory
  pub address : u.pc ≡ s.regs 3 / 2 * 2
  pub global : u.regs 3 ≡ global_pointer
  pub kept : (r : ℕ) → r < 64 → r ≢ 3 → r ≢ 10 → u.regs r ≡ s.regs r

module _ (s t : State) (dst symbol : ℕ) (enters : Enters dst s t)
    (words : (r : ℕ) → s.regs r < 2 ^ 64) (stack : 304 ≤ s.regs 2) where
  pub entry_sp : t.regs 2 ≡ s.regs 2 - 304
  entry_sp = omega (arith, enters.frame, words 2, stack)

  entry_slot :
      (o r : ℕ)
      → stored slots o ≡ some r
      → o % 8 ≡ 0
      → o + 8 ≤ 304
      → r ≢ 2
      → load 8 t.mem (t.regs 2 + o) ≡ s.regs r
  entry_slot o r e al top n =
      let room : (framed s).regs 2 + 304 ≤ 2 ^ 64 = omega (arith, words 2, stack) in
      rw (enters.frame, enters.stack)
        (load-store_all slots (framed s) o slots-InFrame (framed_words s words) room al top
          ∙ rw (e, ==_ne r 2 n) refl)

  pub same_decision :
      (hook_fn : Option HookFn) → decision hook_fn (hook_state t) ≡ decision hook_fn (hook_state s)
  same_decision hook_fn =
      let k : (r : ℕ) → (r ≢ 2) × (r ≢ 5) × (r ≢ 6) × (r ≢ 7) × (r ≢ 28) → t.regs r ≡ s.regs r =
        λ r n. enters.kept r n.0 n.1 n.2 n.3 n.4 in
      rw
        (
          k 10 (omega arith),
          k 11 (omega arith),
          k 12 (omega arith),
          k 13 (omega arith),
          k 14 (omega arith),
          k 15 (omega arith),
          k 3 (omega arith),
          k 17 (omega arith),
        )
        refl

  pub entry_global :
      (symbol + 8 ≤ s.regs 2 - 304) ⊎ (s.regs 2 ≤ symbol)
      → load 8 t.mem symbol ≡ load 8 s.mem symbol
  entry_global apart =
      let room : (framed s).regs 2 + 304 ≤ 2 ^ 64 = omega (arith, words 2, stack) in
      rw enters.stack (
        load-store_all_apart slots (framed s) symbol slots-InFrame room
          (ground (arith, apart, words 2, stack)))

  -- The trampoline stores only into the frame.
  entry_elsewhere : (x : ℕ) → (x < s.regs 2 - 304) ⊎ (s.regs 2 - 304 + 304 ≤ x) → t.mem x ≡ s.mem x
  entry_elsewhere x out =
      let room : (framed s).regs 2 + 304 ≤ 2 ^ 64 = omega (arith, words 2, stack) in
      let frame : (framed s).regs 2 ≡ s.regs 2 - 304 = omega (arith, words 2, stack) in
      rw enters.stack
        (store_all-outside slots (framed s) x slots-InFrame room (ground (arith, out, frame)))

  -- From the state that the hook entry leaves, over the return path.
  module _ (callee : Lines.State → Lines.State) (decided : WrapperRet) (h : Lines.State)
      (p : Prepared callee decided s.pc (hook_state t) h) where
    abbrev pub left : State
    left = record { pc = s.pc - 56; regs = h.regs; mem = h.mem; calls = t.calls }

    pub left_sp : h.regs 2 ≡ s.regs 2 - 304
    left_sp = p.kept 2 refl ∙ entry_sp

    pub left_elsewhere : (x : ℕ) → IsSpared callee (s.regs 2 - 304) x → left.mem x ≡ s.mem x
    left_elsewhere x spared =
        let there : IsSpared callee (t.regs 2) x = rw entry_sp spared in
        p.elsewhere x there ∙ entry_elsewhere x spared.0

    pub left_ra : frame_ra left ≡ s.regs 3
    left_ra =
        let place : u64 (h.regs 2 + 288) ≡ t.regs 2 + 288 =
          omega (arith, left_sp, entry_sp, words 2, stack) in
        rw place (
          p.return_address
          ∙ enters.kept 3 (omega arith) (omega arith) (omega arith) (omega arith) (omega arith))

    pub left_t0 : frame_t0 left ≡ s.regs 5
    left_t0 =
        let place : u64 (h.regs 2 + 0) ≡ t.regs 2 + 0 =
          omega (arith, left_sp, entry_sp, words 2, stack) in
        ap (load 8 h.mem) place
        ∙ p.temporary_0
        ∙ entry_slot 0 5 refl refl (omega arith) (omega arith)

    -- A state in which the return path unwinds the frame.
    module _ (v : State) (same : (r : ℕ) → r ≢ 10 → v.regs r ≡ h.regs r)
        (ra : frame_ra v ≡ s.regs 3) (t0 : frame_t0 v ≡ s.regs 5) where
      pub unwind-kept : (r : ℕ) → r < 64 → r ≢ 3 → r ≢ 10 → (unwind v).regs r ≡ s.regs r
      unwind-kept r bound n3 n10 = elim (Bool-cases (r == 2)) [
        | inl e ↦
            let here : r ≡ 2 = ground arith in
            rw here (omega (arith, same 2 (omega arith), left_sp, words 2, stack))
        | inr n2 ↦ elim (Bool-cases (r == 5)) [
          | inl e ↦ let here : r ≡ 5 = ground arith in rw here t0
          | inr n5 ↦ elim (Bool-cases (r == 6)) [
            | inl e ↦
                let here : r ≡ 6 = ground arith in
                rw here (
                  same 6 (omega arith)
                  ∙ p.temporary_1
                  ∙ entry_slot 8 6 refl refl (omega arith) (omega arith))
            | inr n6 ↦ elim (Bool-cases (r == 7)) [
              | inl e ↦
                  let here : r ≡ 7 = ground arith in
                  rw here (
                    same 7 (omega arith)
                    ∙ p.temporary_2
                    ∙ entry_slot 16 7 refl refl (omega arith) (omega arith))
              | inr n7 ↦ elim (Bool-cases (r == 28)) [
                | inl e ↦
                    let here : r ≡ 28 = ground arith in
                    rw here (
                      same 28 (omega arith)
                      ∙ p.temporary_3
                      ∙ entry_slot 24 28 refl refl (omega arith) (omega arith))
                | inr n28 ↦
                    rw (n2, n5, ==_ne r 3 n3)
                      (same r n10
                        ∙ p.kept r (ground arith)
                        ∙ enters.kept r (ground arith) (ground arith) (ground arith) (ground arith)
                            (ground arith))
              ]
            ]
          ]
        ]
      ]

      pub leave-kept : (a r : ℕ) → r < 64 → r ≢ 3 → r ≢ 10 → (leave a (unwind v)).regs r ≡ s.regs r
      leave-kept a r bound n3 n10 = update_ne (unwind v).regs 3 a r n3 ∙ unwind-kept r bound n3 n10

    pub returned :
        56 ≤ s.pc → Returned callee s.pc decided.value s (leave (s.pc - 56 + 56) (unwind left))
    returned enough = record {
      address = ap (λ a. a / 2 * 2) left_ra;
      result = p.value;
      global = omega arith;
      kept = leave-kept left (λ r n. refl) left_ra left_t0 (s.pc - 56 + 56);
      calls = enters.no_call;
      elsewhere = left_elsewhere;
    }
