-- ===== src/Hook/Elsewhere.antt =====
-- src/main.c: the bytes outside the frame, on the way through `asm_syscall_hook`.
use vpoline.Common.{ℕ, ◌+◌, ◌^◌, ◌≤◌, ◌<◌, ◌≡◌, refl, arith, [], ◌∷◌, u64, ◌∙◌, ap, ◌⊎◌}
use vpoline.Memory.{Memory, store}
use vpoline.Memory.Laws.{store_outside}
use vpoline.Hook.Lines.{State, set}
use vpoline.Hook.Frame.{Slots, InFrame, store_all, store_all-regs, load_all-mem}
use vpoline.Hook.Call.{save_slots, restore_slots, save_slots-InFrame}
use vpoline.Hook.Middle.{after_call, middle}
use vpoline.Hook.Path.{entered, dispatched}

-- A byte outside the frame at `frame`, which `syscall_hook` does not change when it is called with sp
-- there.
abbrev pub IsSpared : (callee : State → State) (frame x : ℕ) → Type 0
IsSpared callee frame x =
    ((x < frame) ⊎ (frame + 304 ≤ x))
    × ((s : State) → s.regs 2 ≡ frame → (callee s).mem x ≡ s.mem x)

pub store_all-outside :
    (l : Slots) (s : State) (x : ℕ)
    → InFrame l
    → s.regs 2 + 304 ≤ 2 ^ 64
    → (x < s.regs 2) ⊎ (s.regs 2 + 304 ≤ x)
    → (store_all l s).mem x ≡ s.mem x
store_all-outside [] s x f room out = refl
store_all-outside ((r, o) ∷ l) s x f room out =
    let (al, top, fit) = f in
    let place : u64 (s.regs 2 + o) ≡ s.regs 2 + o = omega arith in
    store_all-outside l (record s { mem = store 8 s.mem (u64 (s.regs 2 + o)) (s.regs r) }) x fit
      room out
    ∙ rw place (store_outside 8 s.mem (s.regs 2 + o) (s.regs r) x (ground arith))

module _ (symbol : ℕ) (callee : State → State) (s : State) (room : s.regs 2 + 304 ≤ 2 ^ 64) (x : ℕ)
    (spared : IsSpared callee (s.regs 2) x) where
  middle-outside : (ss rs : Slots) → InFrame ss → (middle ss rs callee s).mem x ≡ s.mem x
  unfolding middle after_call
  middle-outside ss rs fit =
      ap (λ (m : Memory). m x) (load_all-mem rs _)
      ∙ spared.1 (set (store_all ss s) 16 ((store_all ss s).regs 6))
          (ap (λ (f : ℕ → ℕ). f 2) (store_all-regs ss s))
      ∙ store_all-outside ss s x fit room spared.0

pub dispatched-outside :
    (symbol : ℕ) (callee : State → State) (s : State)
    → s.regs 2 + 304 ≤ 2 ^ 64
    → (x : ℕ) → IsSpared callee (s.regs 2) x
    → (dispatched symbol callee s).mem x ≡ s.mem x
dispatched-outside symbol callee s room x spared =
    let place : u64 (s.regs 2 + 288) ≡ s.regs 2 + 288 = omega (arith, room) in
    middle-outside symbol callee (entered symbol s) room x spared save_slots restore_slots
      save_slots-InFrame
    ∙ rw place (store_outside 8 s.mem (s.regs 2 + 288) (s.regs 3) x (ground (arith, spared.0)))
