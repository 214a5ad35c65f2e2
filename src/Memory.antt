-- ===== src/Memory.antt =====
-- The memory of the process: a byte at each address, with little-endian loads and stores.
pub mod Laws
use vpoline.Common.{ℕ, zero, suc, ◌+◌, ◌*◌, ◌/◌, ◌%◌, ◌==◌, if◌then◌else◌, List, [], ◌∷◌}

abbrev pub Memory : Type 0
Memory = ℕ → ℕ

-- Also the update of a register file.
abbrev pub update : (ℕ → ℕ) → ℕ → ℕ → ℕ → ℕ
update m a v x = if x == a then v else m x

-- The `n` bytes at `a`, the lowest first.
unfoldable pub load : ℕ → Memory → ℕ → ℕ
load zero m a = 0
load (suc n) m a = m a + 256 * load n m (a + 1)

-- The low `n` bytes of `v`, at `a`.
unfoldable pub store : ℕ → Memory → ℕ → ℕ → Memory
store zero m a v = m
store (suc n) m a v = update (store n m (a + 1) (v / 256)) a (v % 256)

-- An array of `uint32_t` at `a`.
unfoldable pub store_words : Memory → ℕ → List ℕ → Memory
store_words m a [] = m
store_words m a (w ∷ ws) = store_words (store 4 m a w) (a + 4) ws
