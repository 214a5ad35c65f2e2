-- ===== src/Text/Tokens.antt =====
-- What the functions on text do with a text in front of a separator.
use vpoline.Common.{
  ℕ, zero, suc, ◌<◌, ◌≡◌, ◌≢◌, refl, arith, Bool, true, false, ◌==◌, ◌&&◌, ◌||◌, [], ◌∷◌, ◌++◌,
  some, ◌∙◌, ap, ap₂, sym, ==_ne, All, length,
}
use vpoline.Text.{Bytes, starts_with, strstr, skip_spaces, span_token, strtok, fgets}

-- No byte of the text is `c`.
abbrev pub Avoids : ℕ → Bytes → Type 0
Avoids c = All (λ x. x ≢ c)

span_token-append : (t r : Bytes) → Avoids b' ' t → span_token (t ++ (b' ' ∷ r)) ≡ (t, r)
unfolding span_token
span_token-append [] r h = refl
span_token-append (c ∷ t) r (h, hs) = rw (==_ne c b' ' h, span_token-append t r hs)

-- The first token ends at the first space.
pub strtok-append :
    (t r : Bytes) → 0 < length t → Avoids b' ' t → strtok (t ++ (b' ' ∷ r)) ≡ some (t, r)
unfolding strtok skip_spaces
strtok-append [] r pos h = absurd (omega (arith, pos))
strtok-append (c ∷ t) r pos (h, hs) =
    rw (strtok, skip_spaces, ==_ne c b' ' h)
      (ap (λ p. some p) (span_token-append (c ∷ t) r (h, hs)))

-- A line that fits the buffer is read whole, with its newline.
pub fgets-append :
    (n : ℕ) (t r : Bytes)
    → Avoids b'\n' t
    → length t < n
    → fgets n (t ++ (b'\n' ∷ r)) ≡ (t ++ (b'\n' ∷ []), r)
unfolding fgets
fgets-append zero t r h fits = absurd (omega (arith, fits))
fgets-append (suc n) [] r h fits = refl
fgets-append (suc n) (c ∷ t) r (h, hs) fits =
    rw (==_ne c b'\n' h, fgets-append n t r hs (omega (arith, fits)))

-- A text without the first byte of the needle does not start it.
pub strstr-append :
    (t r : Bytes) (x : ℕ) (p : Bytes) → Avoids x t → strstr (t ++ r) (x ∷ p) ≡ strstr r (x ∷ p)
unfolding strstr starts_with
strstr-append [] r x p h = refl
strstr-append (c ∷ t) r x p (h, hs) =
    let e : (x == c) ≡ false = ==_ne x c (λ e. h (sym e)) in rw e (strstr-append t r x p hs)

starts_with-newline :
    (p s : Bytes) (x : ℕ) → Avoids x p → starts_with p (s ++ (x ∷ [])) ≡ starts_with p s
unfolding starts_with
starts_with-newline [] s x h = refl
starts_with-newline (c ∷ p) [] x (h, hs) = rw (==_ne c x h) refl
starts_with-newline (c ∷ p) (d ∷ s) x (h, hs) =
    ap (λ b. (c == d) && b) (starts_with-newline p s x hs)

or_same : (b : Bool) → (b || b) ≡ b
or_same true = refl
or_same false = refl

-- A byte that the needle does not have makes no difference at the end.
pub strstr-newline : (s p : Bytes) (x : ℕ) → Avoids x p → strstr (s ++ (x ∷ [])) p ≡ strstr s p
unfolding strstr
strstr-newline [] p x h =
    ap (λ b. b || starts_with p []) (starts_with-newline p [] x h) ∙ or_same (starts_with p [])
strstr-newline (c ∷ s) p x h =
    ap₂ (λ a b. a || b) (starts_with-newline p (c ∷ s) x h) (strstr-newline s p x h)
