-- ===== src/Text/Hex.antt =====
-- Hexadecimal numbers as text, and `strtol` on them.
use native.Mathlib.Nat.{pow-suc}
use mathlib.Core.Path.{subst}
use vpoline.Common.{
  ℕ, zero, suc, ◌+◌, ◌-◌, ◌*◌, ◌/◌, ◌%◌, ◌^◌, ◌≤◌, ◌<◌, ◌≡◌, refl, arith, true, false, ◌==◌, ltb,
  if◌then◌else◌, [], ◌∷◌, ◌++◌, some, ◌∙◌, ap, sym, ◌⊎◌, inl, inr, All, All-append, length,
  length-append,
}
use vpoline.Text.{Bytes, hex_digit, from_hex, strip_prefix, skip_blank, signed_hex, strtol}

abbrev pub digit : ℕ → ℕ
digit d = if ltb d 10 then b'0' + d else b'a' + (d - 10)

-- The lowest `w` digits of a number.
unfoldable pub hex : (w n : ℕ) → Bytes
hex zero n = []
hex (suc w) n = hex w (n / 16) ++ (digit (n % 16) ∷ [])

-- A digit as `digit` prints it.
abbrev pub IsHex : ℕ → Type 0
IsHex c = ((b'0' ≤ c) × (c ≤ b'9')) ⊎ ((b'a' ≤ c) × (c ≤ b'f'))

digit-IsHex : (d : ℕ) → d < 16 → IsHex (digit d)
digit-IsHex d h = ground arith

hex_digit-digit : (d : ℕ) → d < 16 → hex_digit (digit d) ≡ some d
unfolding hex_digit
hex_digit-digit d h = ground arith

hex_digit-IsHex : (c : ℕ) → IsHex c → (d : ℕ) × (hex_digit c ≡ some d)
unfolding hex_digit
hex_digit-IsHex c (inl h) = (c - b'0', ground arith)
hex_digit-IsHex c (inr h) = (c - b'a' + 10, ground arith)

pub hex-IsHex : (w n : ℕ) → All IsHex (hex w n)
unfolding hex
hex-IsHex zero n = tt
hex-IsHex (suc w) n =
    All-append IsHex (hex w (n / 16)) (digit (n % 16) ∷ []) (hex-IsHex w (n / 16))
      (digit-IsHex (n % 16) (omega arith), tt)

pub length-hex : (w n : ℕ) → length (hex w n) ≡ w
unfolding hex
length-hex zero n = refl
length-hex (suc w) n =
    omega (arith, length-append (hex w (n / 16)) (digit (n % 16) ∷ []), length-hex w (n / 16))

from_hex_step :
    (acc c d : ℕ) (s : Bytes)
    → hex_digit c ≡ some d
    → from_hex acc (c ∷ s) ≡ from_hex (acc * 16 + d) s
unfolding from_hex
from_hex_step acc c d s e = rw (from_hex, e) refl

from_hex-append :
    (acc : ℕ) (s r : Bytes) → All IsHex s → from_hex acc (s ++ r) ≡ from_hex (from_hex acc s) r
unfolding from_hex
from_hex-append acc [] r h = refl
from_hex-append acc (c ∷ s) r (h, hs) =
    let (d, e) = hex_digit-IsHex c h in
    from_hex_step acc c d (s ++ r) e
    ∙ from_hex-append (acc * 16 + d) s r hs
    ∙ ap (λ a. from_hex a r) (sym (from_hex_step acc c d s e))

from_hex-hex : (w n : ℕ) → n < 16 ^ w → from_hex 0 (hex w n) ≡ n
unfolding hex from_hex
from_hex-hex zero n h = omega arith
from_hex-hex (suc w) n h =
    from_hex-append 0 (hex w (n / 16)) (digit (n % 16) ∷ []) (hex-IsHex w (n / 16))
    ∙ from_hex_step (from_hex 0 (hex w (n / 16))) (digit (n % 16)) (n % 16) []
        (hex_digit-digit (n % 16) (omega arith))
    ∙ omega (arith, from_hex-hex w (n / 16) (omega (arith, pow-suc 16 w)))

-- The first two digits.
hex-front : (w n : ℕ) → (c d : ℕ) × (s : Bytes) × (hex (suc (suc w)) n ≡ c ∷ d ∷ s)
unfolding hex
hex-front zero n = (digit (n / 16 % 16), digit (n % 16), [], refl)
hex-front (suc w) n =
    let (c, d, s, e) = hex-front w (n / 16) in
    (c, d, s ++ (digit (n % 16) ∷ []), ap (λ t. t ++ (digit (n % 16) ∷ [])) e)

skip_blank-IsHex : (c : ℕ) (s : Bytes) → IsHex c → skip_blank (c ∷ s) ≡ c ∷ s
unfolding skip_blank
skip_blank-IsHex c s h = ground arith

strip_prefix-IsHex : (c d : ℕ) (s : Bytes) → IsHex d → strip_prefix (c ∷ d ∷ s) ≡ c ∷ d ∷ s
unfolding strip_prefix
strip_prefix-IsHex c d s h = ground arith

signed_hex-IsHex :
    (c : ℕ) (s : Bytes)
    → IsHex c
    → from_hex 0 (strip_prefix (c ∷ s)) < 2 ^ 63
    → signed_hex (c ∷ s) ≡ from_hex 0 (strip_prefix (c ∷ s))
unfolding signed_hex
signed_hex-IsHex c s h small =
    let minus : (c == b'-') ≡ false = ground arith in
    let plus : (c == b'+') ≡ false = ground arith in
    let fits : ltb (from_hex 0 (strip_prefix (c ∷ s))) (2 ^ 63) ≡ true = ground arith in
    rw (signed_hex, minus, plus, fits) refl

-- Before a text of digits `strtol` skips nothing.
strtol-IsHex :
    (c d : ℕ) (s : Bytes)
    → IsHex c
    → IsHex d
    → from_hex 0 (c ∷ d ∷ s) < 2 ^ 63
    → strtol (c ∷ d ∷ s) ≡ from_hex 0 (c ∷ d ∷ s)
unfolding strtol
strtol-IsHex c d s hc hd small =
    let p : strip_prefix (c ∷ d ∷ s) ≡ c ∷ d ∷ s = strip_prefix-IsHex c d s hd in
    ap signed_hex (skip_blank-IsHex c (d ∷ s) hc)
    ∙ signed_hex-IsHex c (d ∷ s) hc (omega (arith, ap (from_hex 0) p, small))
    ∙ ap (from_hex 0) p

-- A number below 2^63 is read back from its digits.
pub strtol-hex : (w n : ℕ) → n < 16 ^ suc (suc w) → n < 2 ^ 63 → strtol (hex (suc (suc w)) n) ≡ n
strtol-hex w n fits small =
    let (c, d, s, e) = hex-front w n in
    let value : from_hex 0 (c ∷ d ∷ s) ≡ n =
      ap (from_hex 0) (sym e) ∙ from_hex-hex (suc (suc w)) n fits in
    let digits : All IsHex (c ∷ d ∷ s) = subst (All IsHex) e (hex-IsHex (suc (suc w)) n) in
    ap strtol e ∙ strtol-IsHex c d s digits.0 digits.1.0 (omega (arith, value, small)) ∙ value
