-- ===== src/Common/Word.antt =====
-- Casts to the fixed widths of C, and sign extension to 64 bits.
use Prim.Native.Nat.{ℕ, ◌+◌, ◌-◌, ◌*◌, ◌/◌, ◌%◌, ◌^◌}
use vpoline.Common.Tests.{ltb, if◌then◌else◌}

abbrev pub u8 : ℕ → ℕ
u8 n = n % 2 ^ 8

abbrev pub u16 : ℕ → ℕ
u16 n = n % 2 ^ 16

abbrev pub u32 : ℕ → ℕ
u32 n = n % 2 ^ 32

abbrev pub u64 : ℕ → ℕ
u64 n = n % 2 ^ 64

infixl 75 ◌<<<◌ ◌>>>◌
abbrev pub ◌<<<◌ : ℕ → ℕ → ℕ
x <<< k = x * 2 ^ k

abbrev pub ◌>>>◌ : ℕ → ℕ → ℕ
x >>> k = x / 2 ^ k

-- The 64-bit pattern of the signed value of the low `w` bits of `v`, for `w` from 1 to 64.
abbrev pub sext : ℕ → ℕ → ℕ
sext w v = if ltb (v % 2 ^ w) (2 ^ (w - 1)) then v % 2 ^ w else v % 2 ^ w + 2 ^ 64 - 2 ^ w

-- `a - b` on 64-bit values.
abbrev pub sub64 : ℕ → ℕ → ℕ
sub64 a b = u64 (a + 2 ^ 64 - b)
