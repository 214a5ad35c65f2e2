-- ===== src/Layout/Pages.antt =====
-- Rounding an address down to its page by the mask of utils.c.
use native.Mathlib.Nat.{pow-suc, one-le-pow, mod-eq_of_lt, div-lt_iff_lt-mul}
use vpoline.Common.{ℕ, zero, suc, ◌+◌, ◌-◌, ◌*◌, ◌/◌, ◌^◌, ◌<◌, ◌≡◌, arith, bit_and, ap}
use vpoline.Common.Bits.{bit_and_high}
use vpoline.Layout.{page_mask}

two_pow-add : (j k n : ℕ) → j + k ≡ n → 2 ^ j * 2 ^ k ≡ 2 ^ n
two_pow-add j zero n h = let e : j ≡ n = omega arith in rw e (omega arith)
two_pow-add j (suc k) zero h = absurd (omega arith)
two_pow-add j (suc k) (suc n) h = omega (
  arith,
  pow-suc 2 k,
  pow-suc 2 n,
  two_pow-add j k n (omega arith),
  ap (λ (t : ℕ). 2 ^ j * t) (pow-suc 2 k),
)

pred-mul : (x y : ℕ) → 0 < x → (x - 1) * y + y ≡ x * y
pred-mul zero y h = absurd (omega arith)
pred-mul (suc x) y h = let e : suc x - 1 ≡ x = omega arith in rw e (omega arith)

mask_bits : (j k : ℕ) → j + k ≡ 64 → page_mask (2 ^ k) ≡ (2 ^ j - 1) * 2 ^ k
mask_bits j k h = omega (
  arith,
  two_pow-add j k 64 h,
  one-le-pow j 2,
  one-le-pow k 2,
  pred-mul (2 ^ j) (2 ^ k) (one-le-pow j 2 (omega arith)),
)

-- With a page size of `2 ^ k` the mask rounds down to the start of the page.
pub page_floor : (k a : ℕ) → k < 64 → a < 2 ^ 64 → bit_and a (page_mask (2 ^ k)) ≡ a / 2 ^ k * 2 ^ k
page_floor k a hk ha =
    let j : ℕ = 64 - k in
    let e : 2 ^ j * 2 ^ k ≡ 2 ^ 64 = two_pow-add j k 64 (omega arith) in
    let small : a / 2 ^ k < 2 ^ j =
      (div-lt_iff_lt-mul (one-le-pow k 2 (omega arith))).1 (omega arith) in
    rw (mask_bits j k (omega arith), bit_and_high k j a, mod-eq_of_lt small)
