-- ===== src/Text.antt =====
-- The functions of the C library that src/main.c uses on text, on strings without their final NUL.
pub mod Hex
pub mod Tokens
pub mod Names
use Prim.Native.Char.{code}
use Prim.Native.String.{String}
use vpoline.Common.{
  ℕ, zero, suc, ◌+◌, ◌-◌, ◌*◌, ◌^◌, ◌%◌, Bool, true, false, ◌&&◌, ◌||◌, ◌==◌, ltb, leb,
  if◌then◌else◌, List, [], ◌∷◌, Option, none, some,
}

abbrev pub Bytes : Type 0
Bytes = List ℕ

-- The bytes of an ASCII text.
abbrev pub codes : String → Bytes
codes String.[] = []
codes (String.◌∷◌ c s) = code c ∷ codes s

pub starts_with : (needle haystack : Bytes) → Bool
starts_with [] s = true
starts_with (x ∷ p) [] = false
starts_with (x ∷ p) (y ∷ s) = (x == y) && starts_with p s

-- `strstr(haystack, needle) != NULL`.
unfoldable pub strstr : (haystack needle : Bytes) → Bool
unfolding starts_with
strstr [] needle = starts_with needle []
strstr (c ∷ s) needle = starts_with needle (c ∷ s) || strstr s needle

pub skip_spaces : Bytes → Bytes
skip_spaces [] = []
skip_spaces (c ∷ s) = if c == b' ' then skip_spaces s else c ∷ s

-- The bytes up to the first space, and those behind it.
pub span_token : Bytes → Bytes × Bytes
span_token [] = ([], [])
span_token (c ∷ s) = let rest = span_token s in if c == b' ' then ([], s) else (c ∷ rest.0, rest.1)

-- `strtok(s, " ")`: the next token, and the text that the next call goes on with.
unfoldable pub strtok : Bytes → Option (Bytes × Bytes)
unfolding skip_spaces span_token
strtok s = elim (skip_spaces s) [ [] ↦ none | c ∷ r ↦ some (span_token (c ∷ r)) ]

-- `isspace` in the C locale.
abbrev is_space : ℕ → Bool
is_space c = c == b' ' || leb 9 c && leb c 13

pub skip_blank : Bytes → Bytes
skip_blank [] = []
skip_blank (c ∷ s) = if is_space c then skip_blank s else c ∷ s

-- The value of a hexadecimal digit.
unfoldable pub hex_digit : ℕ → Option ℕ
hex_digit c =
    if leb b'0' c && leb c b'9'
    then some (c - b'0')
    else if leb b'a' c && leb c b'f'
    then some (c - b'a' + 10)
    else if leb b'A' c && leb c b'F'
    then some (c - b'A' + 10)
    else none

-- The number that the digits at the front spell, behind `acc`.
pub from_hex : (acc : ℕ) → Bytes → ℕ
from_hex acc [] = acc
from_hex acc (c ∷ s) = elim (hex_digit c) [ none ↦ acc | some d ↦ from_hex (acc * 16 + d) s ]

-- Without an optional `0x`.
pub strip_prefix : Bytes → Bytes
strip_prefix (c ∷ d ∷ s) = if c == b'0' && (d == b'x' || d == b'X') then s else c ∷ d ∷ s
strip_prefix s = s

-- The 64-bit pattern of the number with the magnitude, within LONG_MIN and LONG_MAX.
abbrev saturated : (negative : Bool) → ℕ → ℕ
saturated false v = if ltb v (2 ^ 63) then v else 2 ^ 63 - 1
saturated true v = if ltb v (2 ^ 63) then (2 ^ 64 - v) % 2 ^ 64 else 2 ^ 63

pub signed_hex : Bytes → ℕ
unfolding from_hex strip_prefix hex_digit
signed_hex [] = 0
signed_hex (c ∷ s) =
    if c == b'-'
    then saturated true (from_hex 0 (strip_prefix s))
    else if c == b'+'
    then saturated false (from_hex 0 (strip_prefix s))
    else saturated false (from_hex 0 (strip_prefix (c ∷ s)))

-- `strtol(s, NULL, 16)`, as a 64-bit pattern.
unfoldable pub strtol : Bytes → ℕ
unfolding skip_blank signed_hex
strtol s = signed_hex (skip_blank s)

-- `fgets` on a stream that is not at its end, for a buffer of `size + 1` bytes: the line that it
-- reads, and what is left.
unfoldable pub fgets : (size : ℕ) → Bytes → Bytes × Bytes
fgets zero s = ([], s)
fgets (suc n) [] = ([], [])
fgets (suc n) (c ∷ s) =
    let rest = fgets n s in if c == b'\n' then (c ∷ [], s) else (c ∷ rest.0, rest.1)
