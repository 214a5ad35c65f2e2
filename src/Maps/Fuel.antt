-- ===== src/Maps/Fuel.antt =====
-- The loop of `rewrite_code` over the lines, for every contents of the file.
use vpoline.Common.{
  ℕ, zero, suc, ◌≤◌, ◌≡◌, refl, arith, [], ◌∷◌, ◌==◌, some, length, Bool, Bool-cases, none, ◌↔◌,
  inl, inr,
}
use vpoline.Common.Exit.{ok, and_then-ext, and_then-none}
use vpoline.Memory.{Memory}
use vpoline.Text.{Bytes, fgets}
use vpoline.Rewrite.{Capstone, Mprotect}
use vpoline.Maps.{rewrite_line, rewrite_lines, rewrite_code}

-- A read puts nothing back.
fgets-rest : (n : ℕ) (s : Bytes) → length (fgets n s).1 ≤ length s
unfolding fgets
fgets-rest zero s = omega arith
fgets-rest (suc n) [] = omega arith
fgets-rest (suc n) (c ∷ s) = elim (Bool-cases (c == b'\n')) [
  | inl last ↦ rw last (omega arith)
  | inr more ↦ rw more (omega (arith, fgets-rest n s))
]

-- Each read takes a byte at least.
fgets-progress : (n c : ℕ) (s : Bytes) → length (fgets (suc n) (c ∷ s)).1 ≤ length s
unfolding fgets
fgets-progress n c s = elim (Bool-cases (c == b'\n')) [
  | inl last ↦ rw last (omega arith)
  | inr more ↦ rw more (fgets-rest n s)
]

module _ (cs : Capstone) (mprotect : Mprotect → Bool) where
  lines-enough :
      (fuel more : ℕ) (s : Bytes) (mem : Memory)
      → length s ≤ fuel
      → length s ≤ more
      → rewrite_lines cs mprotect fuel s mem ≡ rewrite_lines cs mprotect more s mem
  unfolding rewrite_lines
  lines-enough fuel more [] mem h h' = refl
  lines-enough zero more (c ∷ s) mem h h' = absurd (omega (arith, h))
  lines-enough (suc fuel) zero (c ∷ s) mem h h' = absurd (omega (arith, h'))
  lines-enough (suc fuel) (suc more) (c ∷ s) mem h h' =
      let line = fgets 4095 (c ∷ s) in
      let shorter : length line.1 ≤ length s = fgets-progress 4094 c s in
      and_then-ext (rewrite_line cs mprotect line.0 mem) _ _ (λ mem'.
        lines-enough fuel more line.1 mem' (omega (arith, h, shorter)) (omega (arith, h', shorter)))

  -- The loop comes to a line of the file whose rewriting is not at its end with the fuel of its
  -- range: the next one, or one behind it when the next one comes back.
  pub data IsStuck : Bytes → Memory → Type 0 where
    here :
        (c : ℕ) (s : Bytes) (mem : Memory)
        → rewrite_line cs mprotect (fgets 4095 (c ∷ s)).0 mem ≡ none
        → IsStuck (c ∷ s) mem
    later :
        (c : ℕ) (s : Bytes) (mem mem' : Memory)
        → rewrite_line cs mprotect (fgets 4095 (c ∷ s)).0 mem ≡ some (ok mem')
        → IsStuck (fgets 4095 (c ∷ s)).1 mem'
        → IsStuck (c ∷ s) mem

  lines-none :
      (fuel : ℕ) (s : Bytes) (mem : Memory)
      → length s ≤ fuel
      → rewrite_lines cs mprotect fuel s mem ≡ none
      → IsStuck s mem
  unfolding rewrite_lines
  lines-none fuel [] mem h e = absurd cc
  lines-none zero (c ∷ s) mem h e = absurd (omega (arith, h))
  lines-none (suc fuel) (c ∷ s) mem h e =
      let line = fgets 4095 (c ∷ s) in
      let shorter : length line.1 ≤ length s = fgets-progress 4094 c s in
      let rest = λ (m : Memory). rewrite_lines cs mprotect fuel line.1 m in
      let step = and_then-none (rewrite_line cs mprotect line.0 mem) rest e in
      elim step [
        | inl first ↦ IsStuck.here c s mem first
        | inr (mem', first, second) ↦
            IsStuck.later c s mem mem' first
              (lines-none fuel line.1 mem' (omega (arith, h, shorter)) second)
      ]

  -- A line that is stuck leaves the loop without a result, with any fuel.
  stuck-none :
      (fuel : ℕ) (s : Bytes) (mem : Memory)
      → length s ≤ fuel
      → IsStuck s mem
      → rewrite_lines cs mprotect fuel s mem ≡ none
  unfolding rewrite_lines
  stuck-none zero _ _ h (IsStuck.here c s mem e) = absurd (omega (arith, h))
  stuck-none zero _ _ h (IsStuck.later c s mem mem' e t) = absurd (omega (arith, h))
  stuck-none (suc fuel) _ _ h (IsStuck.here c s mem e) = rw e refl
  stuck-none (suc fuel) _ _ h (IsStuck.later c s mem mem' e t) =
      let shorter : length (fgets 4095 (c ∷ s)).1 ≤ length s = fgets-progress 4094 c s in
      rw e (stuck-none fuel (fgets 4095 (c ∷ s)).1 mem' (omega (arith, h, shorter)) t)

  -- Whatever the file holds, with lines of any length: the number of its bytes is enough fuel for the
  -- loop over its lines. More of it gives the same result; and there is no result exactly when the
  -- loop comes to a line of this file, in the memory that the lines before it have left, whose
  -- rewriting is not at its end with the fuel of its range.
  pub rewrite_code-enough :
      (maps : Bytes) (mem : Memory) (fuel : ℕ)
      → length maps ≤ fuel
      → (rewrite_lines cs mprotect fuel maps mem ≡ rewrite_code cs mprotect (some maps) mem)
        × ((rewrite_code cs mprotect (some maps) mem ≡ none) ↔ IsStuck maps mem)
  unfolding rewrite_code
  rewrite_code-enough maps mem fuel h = (
    lines-enough fuel (length maps) maps mem h (omega arith),
    (
      lines-none (length maps) maps mem (omega arith),
      stuck-none (length maps) maps mem (omega arith),
    ),
  )
