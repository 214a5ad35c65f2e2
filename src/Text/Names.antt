-- ===== src/Text/Names.antt =====
-- The functions of the C library with which src/main.c takes a name out of a path.
use vpoline.Common.{
  ℕ, zero, suc, ◌≤◌, ◌≡◌, refl, arith, Bool, true, false, ◌==◌, ◌&&◌, if◌then◌else◌, [], ◌∷◌, ◌++◌,
  Option, none, some, ◌∙◌, ap, ap₂, sym, ◌⊎◌, inl, inr, ==_ne, Bool-cases, length, take,
}
use vpoline.Text.{Bytes}
use vpoline.Text.Tokens.{Avoids}

-- The string that starts a buffer: its bytes up to the first NUL.
unfoldable pub c_string : Bytes → Bytes
c_string [] = []
c_string (x ∷ s) = let rest = c_string s in if x == 0 then [] else x ∷ rest

-- `strrchr`: the text from the last `c` on, `none` for NULL.
unfoldable pub strrchr : Bytes → (c : ℕ) → Option Bytes
strrchr [] c = none
strrchr (x ∷ s) c = elim (strrchr s c) [
  | some r ↦ some r
  | none ↦ if x == c then some (x ∷ s) else none
]

-- `strcmp(a, b) == 0`.
unfoldable pub strcmp_equal : Bytes → Bytes → Bool
strcmp_equal [] [] = true
strcmp_equal [] (y ∷ t) = false
strcmp_equal (x ∷ s) [] = false
strcmp_equal (x ∷ s) (y ∷ t) = (x == y) && strcmp_equal s t

pub c_string-whole : (s : Bytes) → Avoids 0 s → c_string s ≡ s
unfolding c_string
c_string-whole [] h = refl
c_string-whole (x ∷ s) (h, hs) = rw (==_ne x 0 h, c_string-whole s hs) refl

-- The first string of a buffer that is filled from a longer text.
pub c_string-take :
    (n : ℕ) (s r : Bytes) → Avoids 0 s → length s ≤ n → c_string (take n (s ++ (0 ∷ r))) ≡ s
unfolding c_string
c_string-take zero [] r h fits = refl
c_string-take zero (x ∷ s) r h fits = absurd (omega (arith, fits))
c_string-take (suc n) [] r h fits = refl
c_string-take (suc n) (x ∷ s) r (h, hs) fits =
    rw (==_ne x 0 h, c_string-take n s r hs (omega (arith, fits))) refl

pub strrchr-none : (s : Bytes) (c : ℕ) → Avoids c s → strrchr s c ≡ none
unfolding strrchr
strrchr-none [] c h = refl
strrchr-none (x ∷ s) c (h, hs) = rw (strrchr-none s c hs, ==_ne x c h) refl

-- The last `c` is the one with none behind it.
pub strrchr-last : (d t : Bytes) (c : ℕ) → Avoids c t → strrchr (d ++ (c ∷ t)) c ≡ some (c ∷ t)
unfolding strrchr
strrchr-last [] t c h =
    let same : (c == c) ≡ true = ground arith in rw (strrchr-none t c h, same) refl
strrchr-last (x ∷ d) t c h = rw (strrchr-last d t c h) refl

-- A text has no `c`, or a last one.
pub strrchr-cases :
    (s : Bytes) (c : ℕ) → Avoids c s ⊎ ((d : Bytes) × (t : Bytes) × (s ≡ d ++ (c ∷ t)) × Avoids c t)
strrchr-cases [] c = inl tt
strrchr-cases (x ∷ s) c = elim (strrchr-cases s c) [
  | inr (d, t, e, h) ↦ inr (x ∷ d, t, ap (λ l. x ∷ l) e, h)
  | inl h ↦ elim (Bool-cases (x == c)) [
    | inl same ↦ let e : x ≡ c = ground arith in inr ([], s, ap (λ y. y ∷ s) e, h)
    | inr other ↦ inl ((λ e. ground arith), h)
  ]
]

pub strcmp_equal-same : (s : Bytes) → strcmp_equal s s ≡ true
unfolding strcmp_equal
strcmp_equal-same [] = refl
strcmp_equal-same (x ∷ s) =
    let same : (x == x) ≡ true = ground arith in rw (same, strcmp_equal-same s) refl

pub strcmp_equal-eq : (s t : Bytes) → strcmp_equal s t ≡ true → s ≡ t
unfolding strcmp_equal
strcmp_equal-eq [] [] e = refl
strcmp_equal-eq [] (y ∷ t) e = absurd cc
strcmp_equal-eq (x ∷ s) [] e = absurd cc
strcmp_equal-eq (x ∷ s) (y ∷ t) e = elim (Bool-cases (x == y)) [
  | inl same ↦
      let here : x ≡ y = ground arith in
      let rest : strcmp_equal s t ≡ true = sym (rw same refl) ∙ e in
      ap₂ (λ a l. a ∷ l) here (strcmp_equal-eq s t rest)
  | inr other ↦ absurd (ground arith)
]
