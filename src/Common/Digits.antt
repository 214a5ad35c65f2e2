-- ===== src/Common/Digits.antt =====
-- The native `bit_and` and `bit_or`, one binary digit at a time.
use Prim.Native.Nat.{
  ℕ, zero, suc, ◌+◌, ◌*◌, ◌/◌, ◌%◌, ◌≤◌, ◌<◌, min, max, digits, bit_and, bit_or, bit_and-bitwise,
  bit_or-bitwise,
}
use mathlib.Core.Path.{◌≡◌, refl, ap, ◌∙◌, sym}
use mathlib.Core.WellFounded
use native.Mathlib.Omega.{arith}
use vpoline.Common.Order.{lt_wf}

-- Induction from half of a number to the number.
pub halving : (P : ℕ → Type 0) → P 0 → ((n : ℕ) → P (n / 2) → P n) → (n : ℕ) → P n
halving P base up n = WellFounded.induction lt_wf {C = P} n (λ k ih. from_half k ih)
  where
    from_half : (k : ℕ) → ((j : ℕ) → j < k → P j) → P k
    from_half zero ih = base
    from_half (suc k) ih = up (suc k) (ih (suc k / 2) (omega arith))

-- Any two amounts of fuel that reach the first number agree.
digits_agree :
    (z : ℕ → ℕ) (f : ℕ → ℕ → ℕ) (b a n m : ℕ) → a ≤ n → a ≤ m → digits z f n a b ≡ digits z f m a b
digits_agree z f b zero zero zero p q = refl
digits_agree z f b zero zero _ p q = refl
digits_agree z f b zero _ zero p q = refl
digits_agree z f b zero _ _ p q = refl
digits_agree z f b (suc a) zero m p q = absurd (omega arith)
digits_agree z f b (suc a) (suc n) zero p q = absurd (omega arith)
digits_agree z f b (suc a) (suc n) (suc m) p q =
    ap (λ (t : ℕ). t * 2 + f (suc a % 2) (b % 2))
      (digits_agree z f (b / 2) (suc a / 2) n m (omega arith) (omega arith))

pub bit_and_step : (a b : ℕ) → bit_and a b ≡ bit_and (a / 2) (b / 2) * 2 + min (a % 2) (b % 2)
bit_and_step zero b = omega (arith, bit_and-bitwise 0)
bit_and_step (suc a) b =
    let half = suc a / 2 in
    bit_and-bitwise (suc a) b
    ∙ ap (λ (t : ℕ). t * 2 + min (suc a % 2) (b % 2))
        (digits_agree (λ _. 0) min (b / 2) half a half (omega arith) (omega arith)
          ∙ sym (bit_and-bitwise half (b / 2)))

pub bit_or_step : (a b : ℕ) → bit_or a b ≡ bit_or (a / 2) (b / 2) * 2 + max (a % 2) (b % 2)
bit_or_step zero b = omega (arith, bit_or-bitwise 0)
bit_or_step (suc a) b =
    let half = suc a / 2 in
    bit_or-bitwise (suc a) b
    ∙ ap (λ (t : ℕ). t * 2 + max (suc a % 2) (b % 2))
        (digits_agree (λ y. y) max (b / 2) half a half (omega arith) (omega arith)
          ∙ sym (bit_or-bitwise half (b / 2)))
