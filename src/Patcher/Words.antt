-- ===== src/Patcher/Words.antt =====
-- From the words in memory to the code that the processor reads.
use vpoline.Common.{
  ℕ, zero, suc, ◌+◌, ◌*◌, ◌%◌, ◌^◌, ◌≡◌, arith, true, List, [], ◌∷◌, some, get_elem?, ◌∙◌, drop, ap,
}
use vpoline.Memory.{Memory, load, store, store_words}
use vpoline.Memory.Laws.{load_ext, load-store_4, store_words_below}
use vpoline.Machine.{Insn, decode}
use vpoline.Machine.Straight.{Code, is_straight}

-- From `a` on the processor reads these words.
abbrev pub Holds : (ℕ → ℕ) → ℕ → List ℕ → Type 0
Holds fetch a [] = Unit
Holds fetch a (w ∷ ws) = (fetch a ≡ w % 2 ^ 32) × Holds fetch (a + 4) ws

pub Holds-store_words :
    (ws : List ℕ) (m : Memory) (a : ℕ) → Holds (load 4 (store_words m a ws)) a ws
unfolding store_words
Holds-store_words [] m a = tt
Holds-store_words (w ∷ ws) m a = (
  load_ext 4 (store_words (store 4 m a w) (a + 4) ws) (store 4 m a w) a
        (λ x p q. store_words_below ws (store 4 m a w) (a + 4) x q)
      ∙ load-store_4 m a w,
  Holds-store_words ws (store 4 m a w) (a + 4),
)

-- The first words are the formats of these instructions.
abbrev pub Decodes : List ℕ → List Insn → Type 0
Decodes ws [] = Unit
Decodes [] (i ∷ is) = ⊥
Decodes (w ∷ ws) (i ∷ is) = (decode (w % 2 ^ 32) ≡ i) × (is_straight i ≡ true) × Decodes ws is

pub Code-of_words :
    (fetch : ℕ → ℕ) (a : ℕ) (ws : List ℕ) (is : List Insn)
    → Holds fetch a ws
    → Decodes ws is
    → Code fetch a is
Code-of_words fetch a ws [] h d = tt
Code-of_words fetch a [] (i ∷ is) h d = absurd d
Code-of_words fetch a (w ∷ ws) (i ∷ is) h d =
    (ap decode h.0 ∙ d.0, d.1, Code-of_words fetch (a + 4) ws is h.1 d.2)

pub Holds-get :
    (fetch : ℕ → ℕ) (a : ℕ) (ws : List ℕ) (i w : ℕ)
    → Holds fetch a ws
    → get_elem? ws i ≡ some w
    → fetch (a + 4 * i) ≡ w % 2 ^ 32
Holds-get fetch a [] i w h e = cc
Holds-get fetch a (v ∷ ws) zero w h e =
    let z : a + 4 * 0 ≡ a = omega arith in rw z (h.0 ∙ ground arith)
Holds-get fetch a (v ∷ ws) (suc i) w h e =
    let z : a + 4 * suc i ≡ a + 4 + 4 * i = omega arith in
    rw z (Holds-get fetch (a + 4) ws i w h.1 e)

pub Holds-drop :
    (fetch : ℕ → ℕ) (n a : ℕ) (ws : List ℕ) → Holds fetch a ws → Holds fetch (a + 4 * n) (drop n ws)
Holds-drop fetch zero a ws h = let z : a + 4 * 0 ≡ a = omega arith in rw z h
Holds-drop fetch (suc n) a [] h = tt
Holds-drop fetch (suc n) a (w ∷ ws) h =
    let z : a + 4 * suc n ≡ a + 4 + 4 * n = omega arith in rw z (Holds-drop fetch n (a + 4) ws h.1)
