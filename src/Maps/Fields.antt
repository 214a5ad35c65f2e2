-- ===== src/Maps/Fields.antt =====
-- The fields of a line of /proc/self/maps: what the code reads of them.
use vpoline.Common.{
  ℕ, suc, ◌+◌, ◌^◌, ◌≤◌, ◌<◌, ◌≡◌, ◌≢◌, refl, arith, Bool, true, false, ◌==◌, not, if◌then◌else◌,
  [], ◌∷◌, ◌++◌, sym, inl, inr, ◌⊎◌, ==_ne, All-imp, length, bit_and,
}
use vpoline.Text.{Bytes, strtol}
use vpoline.Text.Hex.{IsHex, hex-IsHex, length-hex, strtol-hex}
use vpoline.Text.Tokens.{Avoids}
use vpoline.Maps.{mem_prot, split_range, prot_exec}
use vpoline.Maps.Print.{more_digits, print_address, print_perms}

more_digits-le : (n : ℕ) → more_digits n ≤ 14
more_digits-le n = ground arith

more_digits-fits : (n : ℕ) → n < 2 ^ 63 → n < 16 ^ suc (suc (more_digits n))
more_digits-fits n h = ground arith

pub strtol-print_address : (n : ℕ) → n < 2 ^ 63 → strtol (print_address n) ≡ n
unfolding print_address
strtol-print_address n h = strtol-hex (more_digits n) n (more_digits-fits n h) h

pub length-print_address :
    (n : ℕ) → (2 ≤ length (print_address n)) × (length (print_address n) ≤ 16)
unfolding print_address
length-print_address n = omega (arith, length-hex (suc (suc (more_digits n))) n, more_digits-le n)

-- A byte that is no digit is not in an address.
pub print_address-Avoids : (n c : ℕ) → ((x : ℕ) → IsHex x → x ≢ c) → Avoids c (print_address n)
unfolding print_address
print_address-Avoids n c h =
    All-imp IsHex (λ x. x ≢ c) h (print_address n) (hex-IsHex (suc (suc (more_digits n))) n)

pub hex-ne-dash : (x : ℕ) → IsHex x → x ≢ b'-'
hex-ne-dash x h = ground arith

pub hex-ne-space : (x : ℕ) → IsHex x → x ≢ b' '
hex-ne-space x h = ground arith

pub hex-ne-l : (x : ℕ) → IsHex x → x ≢ b'l'
hex-ne-l x h = ground arith

pub hex-ne-newline : (x : ℕ) → IsHex x → x ≢ b'\n'
hex-ne-newline x h = ground arith

pub split_range-append : (t r : Bytes) → Avoids b'-' t → split_range (t ++ (b'-' ∷ r)) ≡ (t, r)
unfolding split_range
split_range-append [] r h = refl
split_range-append (c ∷ t) r (h, hs) = rw (==_ne c b'-' h, split_range-append t r hs)

-- The flags of the letters.
abbrev pub flags : (r w x : Bool) → ℕ
flags r w x = (if r then 1 else 0) + (if w then 2 else 0) + (if x then 4 else 0)

pub mem_prot-print_perms : (r w x s : Bool) → mem_prot 0 (print_perms r w x s) ≡ flags r w x
mem_prot-print_perms true true true true = refl
mem_prot-print_perms true true true false = refl
mem_prot-print_perms true true false true = refl
mem_prot-print_perms true true false false = refl
mem_prot-print_perms true false true true = refl
mem_prot-print_perms true false true false = refl
mem_prot-print_perms true false false true = refl
mem_prot-print_perms true false false false = refl
mem_prot-print_perms false true true true = refl
mem_prot-print_perms false true true false = refl
mem_prot-print_perms false true false true = refl
mem_prot-print_perms false true false false = refl
mem_prot-print_perms false false true true = refl
mem_prot-print_perms false false true false = refl
mem_prot-print_perms false false false true = refl
mem_prot-print_perms false false false false = refl

pub flags-exec : (r w x : Bool) → (bit_and (flags r w x) prot_exec == 0) ≡ not x
flags-exec true true true = refl
flags-exec true true false = refl
flags-exec true false true = refl
flags-exec true false false = refl
flags-exec false true true = refl
flags-exec false true false = refl
flags-exec false false true = refl
flags-exec false false false = refl

letter : (b : Bool) (x y c : ℕ) → c ≢ x → c ≢ y → (if b then x else y) ≢ c
letter true x y c nx ny e = nx (sym e)
letter false x y c nx ny e = ny (sym e)

-- The letters of the permissions.
abbrev pub IsLetter : ℕ → Type 0
IsLetter c = (c ≡ b'r') ⊎ ((c ≡ b'w') ⊎ ((c ≡ b'x') ⊎ ((c ≡ b's') ⊎ ((c ≡ b'p') ⊎ (c ≡ b'-')))))

pub perms-Avoids : (r w x s : Bool) (c : ℕ) → ¬ IsLetter c → Avoids c (print_perms r w x s)
perms-Avoids r w x s c n = (
  letter r b'r' b'-' c (λ e. n (inl e)) (λ e. n (inr (inr (inr (inr (inr e)))))),
  (
    letter w b'w' b'-' c (λ e. n (inr (inl e))) (λ e. n (inr (inr (inr (inr (inr e)))))),
    (
      letter x b'x' b'-' c (λ e. n (inr (inr (inl e)))) (λ e. n (inr (inr (inr (inr (inr e)))))),
      (
        letter s b's' b'p' c (λ e. n (inr (inr (inr (inl e)))))
            (λ e. n (inr (inr (inr (inr (inl e)))))),
        tt,
      ),
    ),
  ),
)
