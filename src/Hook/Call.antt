-- ===== src/Hook/Call.antt =====
-- src/main.c: the middle of `asm_syscall_hook`, from the stored context over the call of
-- `syscall_hook` to the restored context.
use vpoline.Common.{
  ℕ, ◌+◌, ◌≤◌, ◌<◌, ◌≡◌, refl, arith, Bool, true, ◌==◌, ◌&&◌, ◌||◌, leb, [], ◌∷◌, Option,
}
use vpoline.Memory.{load}
use vpoline.Hook.{save_context, restore_context, text}
use vpoline.Hook.Callee.{HookFn, syscall_hook}
use vpoline.Hook.Lines.{State}
use vpoline.Hook.Frame.{Slots, InFrame, store_all, load_all, lines, SparesSp}

abbrev pub save_slots : Slots
save_slots =
    (1, 32)
    ∷ (11, 40)
    ∷ (12, 48)
    ∷ (13, 56)
    ∷ (14, 64)
    ∷ (15, 72)
    ∷ (16, 80)
    ∷ (17, 88)
    ∷ (29, 96)
    ∷ (30, 104)
    ∷ (31, 112)
    ∷ (42, 120)
    ∷ (43, 128)
    ∷ (44, 136)
    ∷ (45, 144)
    ∷ (46, 152)
    ∷ (47, 160)
    ∷ (48, 168)
    ∷ (49, 176)
    ∷ (32, 184)
    ∷ (33, 192)
    ∷ (34, 200)
    ∷ (35, 208)
    ∷ (36, 216)
    ∷ (37, 224)
    ∷ (38, 232)
    ∷ (39, 240)
    ∷ (60, 248)
    ∷ (61, 256)
    ∷ (62, 264)
    ∷ (63, 272)
    ∷ []

abbrev pub restore_slots : Slots
restore_slots = (6, 8) ∷ (7, 16) ∷ (28, 24) ∷ save_slots

-- What the calling convention keeps over a call: sp, gp, tp, s0 to s11 and fs0 to fs11. Register 0
-- never changes.
abbrev pub callee_saved : ℕ → Bool
callee_saved r =
    r == 0
    || leb 2 r && leb r 4
    || leb 8 r && leb r 9
    || leb 18 r && leb r 27
    || leb 40 r && leb r 41
    || leb 50 r && leb r 59

-- The compiled `syscall_hook`, as the calling convention lets its caller see it: the two results
-- of the C function, the kept registers, and the frame of the caller and
-- `relocated_global_pointer`, which neither it nor the hook function writes.
pub record IsCallee (hook_fn : Option HookFn) (symbol : ℕ) (callee : State → State) : Type 0 where
  pub value :
      (s : State)
      → (callee s).regs 10
        ≡ (syscall_hook hook_fn
            (s.regs 10)
            (s.regs 11)
            (s.regs 12)
            (s.regs 13)
            (s.regs 14)
            (s.regs 15)
            (s.regs 16)
            (s.regs 17)).value
  pub handled :
      (s : State)
      → (callee s).regs 11
        ≡ (syscall_hook hook_fn
            (s.regs 10)
            (s.regs 11)
            (s.regs 12)
            (s.regs 13)
            (s.regs 14)
            (s.regs 15)
            (s.regs 16)
            (s.regs 17)).handled
  pub saved : (s : State) (r : ℕ) → callee_saved r ≡ true → (callee s).regs r ≡ s.regs r
  pub frame : (s : State) (x : ℕ) → s.regs 2 ≤ x → x < s.regs 2 + 304 → (callee s).mem x ≡ s.mem x
  pub global : (s : State) → load 8 (callee s).mem symbol ≡ load 8 s.mem symbol

pub save-slots :
    (symbol : ℕ) (callee : State → State) (s : State)
    → lines symbol callee text save_context s ≡ store_all save_slots s
save-slots symbol callee s = refl

pub restore-slots :
    (symbol : ℕ) (callee : State → State) (s : State)
    → lines symbol callee text restore_context s ≡ load_all restore_slots s
restore-slots symbol callee s = refl

pub save_slots-InFrame : InFrame save_slots
save_slots-InFrame = omega arith

pub restore_slots-SparesSp : SparesSp restore_slots
restore_slots-SparesSp = omega arith
