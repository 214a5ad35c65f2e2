-- ===== src/Memory/Laws.antt =====
-- What a load sees of a store.
use native.Mathlib.Nat.{pow-suc}
use vpoline.Common.{
  ℕ, zero, suc, ◌+◌, ◌*◌, ◌/◌, ◌%◌, ◌^◌, ◌≤◌, ◌<◌, ◌≡◌, refl, arith, ◌⊎◌, List, [], ◌∷◌, some, inl,
  inr, ◌∙◌, length, get_elem?,
}
use vpoline.Memory.{Memory, update, load, store, store_words}

-- Every cell holds a byte.
abbrev pub IsBytes : Memory → Type 0
IsBytes m = (x : ℕ) → m x < 256

pub load-lt : (n : ℕ) (m : Memory) (a : ℕ) → IsBytes m → load n m a < 256 ^ n
unfolding load
load-lt zero m a h = omega arith
load-lt (suc n) m a h = omega (arith, h a, load-lt n m (a + 1) h, pow-suc 256 n)

pub store-IsBytes : (n : ℕ) (m : Memory) (a v : ℕ) → IsBytes m → IsBytes (store n m a v)
unfolding store
store-IsBytes zero m a v h x = h x
store-IsBytes (suc n) m a v h x = ground (arith, store-IsBytes n m (a + 1) (v / 256) h x)

pub store_words-IsBytes :
    (ws : List ℕ) (m : Memory) (a : ℕ) → IsBytes m → IsBytes (store_words m a ws)
unfolding store_words
store_words-IsBytes [] m a h = h
store_words-IsBytes (w ∷ ws) m a h =
    store_words-IsBytes ws (store 4 m a w) (a + 4) (store-IsBytes 4 m a w h)

-- Outside of its bytes a store changes nothing.
pub store_outside : (n : ℕ) (m : Memory) (a v x : ℕ) → (x < a) ⊎ (a + n ≤ x) → store n m a v x ≡ m x
unfolding store
store_outside zero m a v x h = refl
store_outside (suc n) m a v x h = ground (arith, store_outside n m (a + 1) (v / 256) x)

-- Loads agree where the memories do.
pub load_ext :
    (n : ℕ) (m k : Memory) (a : ℕ)
    → ((x : ℕ) → a ≤ x → x < a + n → m x ≡ k x)
    → load n m a ≡ load n k a
unfolding load
load_ext zero m k a h = refl
load_ext (suc n) m k a h = omega (
  arith,
  h a (omega arith) (omega arith),
  load_ext n m k (a + 1) (λ x p q. h x (omega arith) (omega arith)),
)

-- A load beside a store sees the old bytes.
pub load-store_apart :
    (k n : ℕ) (m : Memory) (b a v : ℕ)
    → (b + k ≤ a) ⊎ (a + n ≤ b)
    → load k (store n m a v) b ≡ load k m b
load-store_apart k n m b a v h =
    load_ext k (store n m a v) m b (λ x p q. store_outside n m a v x (ground arith))

-- The low `n` bytes of a number.
abbrev low_bytes : ℕ → ℕ → ℕ
low_bytes zero v = 0
low_bytes (suc n) v = v % 256 + 256 * low_bytes n (v / 256)

load-store_bytes : (n : ℕ) (m : Memory) (a v : ℕ) → load n (store n m a v) a ≡ low_bytes n v
unfolding load store
load-store_bytes zero m a v = refl
load-store_bytes (suc n) m a v =
    let rest = store n m (a + 1) (v / 256) in
    let same : load n (update rest a (v % 256)) (a + 1) ≡ load n rest (a + 1) =
      load_ext n (update rest a (v % 256)) rest (a + 1) (λ x p q. ground arith) in
    ground (arith, same, load-store_bytes n m (a + 1) (v / 256))

-- A load of what was stored, at the widths of C.
pub load-store_2 : (m : Memory) (a v : ℕ) → load 2 (store 2 m a v) a ≡ v % 2 ^ 16
load-store_2 m a v = omega (arith, load-store_bytes 2 m a v)

pub load-store_4 : (m : Memory) (a v : ℕ) → load 4 (store 4 m a v) a ≡ v % 2 ^ 32
load-store_4 m a v = omega (arith, load-store_bytes 4 m a v)

pub load-store_8 : (m : Memory) (a v : ℕ) → load 8 (store 8 m a v) a ≡ v % 2 ^ 64
load-store_8 m a v = omega (arith, load-store_bytes 8 m a v)

-- An array of words changes nothing below it.
pub store_words_below : (ws : List ℕ) (m : Memory) (a x : ℕ) → x < a → store_words m a ws x ≡ m x
unfolding store_words
store_words_below [] m a x h = refl
store_words_below (w ∷ ws) m a x h =
    store_words_below ws (store 4 m a w) (a + 4) x (omega arith) ∙ store_outside 4 m a w x (inl h)

-- Nor above it.
pub store_words_above :
    (ws : List ℕ) (m : Memory) (a x : ℕ) → a + 4 * length ws ≤ x → store_words m a ws x ≡ m x
unfolding store_words
store_words_above [] m a x h = refl
store_words_above (w ∷ ws) m a x h =
    store_words_above ws (store 4 m a w) (a + 4) x (omega arith)
    ∙ store_outside 4 m a w x (inr (omega arith))

-- The words of an array are read back.
pub load-store_words :
    (ws : List ℕ) (m : Memory) (a i w : ℕ)
    → get_elem? ws i ≡ some w
    → load 4 (store_words m a ws) (a + 4 * i) ≡ w % 2 ^ 32
unfolding store_words
load-store_words [] m a i w h = cc
load-store_words (v ∷ ws) m a zero w h =
    let e : a + 4 * 0 ≡ a = omega arith in
    rw e (
      load_ext 4 (store_words (store 4 m a v) (a + 4) ws) (store 4 m a v) a
        (λ x p q. store_words_below ws (store 4 m a v) (a + 4) x q)
      ∙ load-store_4 m a v
      ∙ ground arith)
load-store_words (v ∷ ws) m a (suc i) w h =
    let e : a + 4 * suc i ≡ a + 4 + 4 * i = omega arith in
    rw e (load-store_words ws (store 4 m a v) (a + 4) i w h)
