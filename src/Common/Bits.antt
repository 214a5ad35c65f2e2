-- ===== src/Common/Bits.antt =====
-- `&` with a mask and `|` of disjoint fields, as arithmetic: a digitwise operation acts on the high
-- and on the low part of its operands.
use Prim.Native.Nat.{
  ℕ, zero, suc, ◌+◌, ◌-◌, ◌*◌, ◌/◌, ◌%◌, ◌^◌, ◌<◌, bit_and, bit_or, bit_or-bitwise, min, max,
}
use mathlib.Core.Path.{◌≡◌, refl, ap}
use native.Mathlib.Nat.{pow-suc, one-le-pow}
use native.Mathlib.Omega.{arith}
use vpoline.Common.Digits.{halving, bit_and_step, bit_or_step}

doubled : (q k : ℕ) → q * 2 ^ suc k ≡ q * 2 ^ k * 2
doubled q k = omega (arith, ap (λ (t : ℕ). q * t) (pow-suc 2 k))

module _ (op c : ℕ → ℕ → ℕ) (none_set : op 0 0 ≡ 0)
    (by_digit : (a b : ℕ) → op a b ≡ op (a / 2) (b / 2) * 2 + c (a % 2) (b % 2)) where
  op_parts :
      (k h l h' l' : ℕ)
      → l < 2 ^ k
      → l' < 2 ^ k
      → op (h * 2 ^ k + l) (h' * 2 ^ k + l') ≡ op h h' * 2 ^ k + op l l'
  op_parts zero h l h' l' p q = ground (arith, none_set)
  op_parts (suc k) h l h' l' p q = ground (
    arith,
    by_digit (h * 2 ^ suc k + l) (h' * 2 ^ suc k + l'),
    by_digit l l',
    doubled h k,
    doubled h' k,
    doubled (op h h') k,
    pow-suc 2 k,
    op_parts k h (l / 2) h' (l' / 2),
  )

bit_and_parts :
    (k h l h' l' : ℕ)
    → l < 2 ^ k
    → l' < 2 ^ k
    → bit_and (h * 2 ^ k + l) (h' * 2 ^ k + l') ≡ bit_and h h' * 2 ^ k + bit_and l l'
bit_and_parts = op_parts bit_and min refl bit_and_step

bit_or_parts :
    (k h l h' l' : ℕ)
    → l < 2 ^ k
    → l' < 2 ^ k
    → bit_or (h * 2 ^ k + l) (h' * 2 ^ k + l') ≡ bit_or h h' * 2 ^ k + bit_or l l'
bit_or_parts = op_parts bit_or max refl bit_or_step

pub bit_and-zero : (a : ℕ) → bit_and a 0 ≡ 0
bit_and-zero = halving (λ n. bit_and n 0 ≡ 0) refl (λ n ih. omega (arith, bit_and_step n 0, ih))

pub bit_or-zero : (a : ℕ) → bit_or a 0 ≡ a
bit_or-zero = halving (λ n. bit_or n 0 ≡ n) refl (λ n ih. omega (arith, bit_or_step n 0, ih))

zero-bit_or : (b : ℕ) → bit_or 0 b ≡ b
zero-bit_or = bit_or-bitwise 0

-- Two fields, the low one of `k` bits, joined by `|`.
pub bit_or_high : (k hi lo : ℕ) → lo < 2 ^ k → bit_or (hi * 2 ^ k) lo ≡ hi * 2 ^ k + lo
bit_or_high k hi lo h =
    ground (arith, bit_or_parts k hi 0 0 lo, one-le-pow k 2, bit_or-zero hi, zero-bit_or lo)

pub bit_or_low : (k hi lo : ℕ) → lo < 2 ^ k → bit_or lo (hi * 2 ^ k) ≡ hi * 2 ^ k + lo
bit_or_low k hi lo h =
    ground (arith, bit_or_parts k 0 lo hi 0, one-le-pow k 2, zero-bit_or hi, bit_or-zero lo)

-- All bits of a number of `k` bits are in the mask of `k` ones.
bit_and_ones : (k r : ℕ) → r < 2 ^ k → bit_and r (2 ^ k - 1) ≡ r
bit_and_ones zero r h = rw bit_and-zero (omega arith)
bit_and_ones (suc k) r h =
    ground (arith, bit_and_step r (2 ^ suc k - 1), pow-suc 2 k, bit_and_ones k (r / 2))

-- The low `k` bits are the remainder by `2 ^ k`.
pub bit_and_low : (k a : ℕ) → bit_and a (2 ^ k - 1) ≡ a % 2 ^ k
bit_and_low k a = ground (
  arith,
  one-le-pow k 2,
  bit_and_parts k (a / 2 ^ k) (a % 2 ^ k) 0 (2 ^ k - 1),
  bit_and-zero (a / 2 ^ k),
  bit_and_ones k (a % 2 ^ k),
)

-- A mask of `w` ones from bit `k` up.
pub bit_and_high : (k w a : ℕ) → bit_and a ((2 ^ w - 1) * 2 ^ k) ≡ a / 2 ^ k % 2 ^ w * 2 ^ k
bit_and_high k w a = rw (← bit_and_low w (a / 2 ^ k)) (
    ground (
      arith,
      one-le-pow k 2,
      bit_and_parts k (a / 2 ^ k) (a % 2 ^ k) (2 ^ w - 1) 0,
      bit_and-zero (a % 2 ^ k),
    ))
