-- ===== src/Patcher/Installed.antt =====
-- src/patcher.c: what the memory holds after both functions.
use vpoline.Common.{
  ℕ, ◌+◌, ◌*◌, ◌%◌, ◌≤◌, ◌<◌, ◌≡◌, refl, arith, Bool, true, ◌==◌, List, [], ◌∷◌, length, ◌∙◌, ◌⊎◌,
  inl, inr,
}
use vpoline.Common.Exit.{ok}
use vpoline.Memory.{Memory, load, store_words}
use vpoline.Memory.Laws.{load_ext, store_words_below, store_words_above}
use vpoline.Layout.{ReturnSequenceInfo}
use vpoline.Patcher.{
  trampoline, setup_shadow_page_trampoline, return_sequence, setup_return, Protection, Written,
}
use vpoline.Patcher.Words.{Holds, Holds-store_words}

Holds-ext :
    (f g : ℕ → ℕ) (a : ℕ) (ws : List ℕ)
    → ((x : ℕ) → a ≤ x → f x ≡ g x)
    → Holds g a ws
    → Holds f a ws
Holds-ext f g a [] same h = tt
Holds-ext f g a (w ∷ ws) same (e, h) =
    (same a (omega arith) ∙ e, Holds-ext f g (a + 4) ws (λ x l. same x (omega arith)) h)

-- Two memories that agree on the words.
pub Holds-between :
    (mem mem' : Memory) (a : ℕ) (ws : List ℕ)
    → ((x : ℕ) → a ≤ x → x < a + 4 * length ws → mem' x ≡ mem x)
    → Holds (load 4 mem) a ws
    → Holds (load 4 mem') a ws
Holds-between mem mem' a [] same h = tt
Holds-between mem mem' a (w ∷ ws) same (e, h) = (
  load_ext 4 mem' mem a (λ x low high. same x low (omega arith)) ∙ e,
  Holds-between mem mem' (a + 4) ws (λ x low high. same x (omega arith) (omega arith)) h,
)

-- What `setup_return` leaves behind the trampoline: both pieces of code, and nothing else.
pub record Installed (dst : ℕ) (rsi : ReturnSequenceInfo) (mem : Memory) (w : Written)
    : Type 0 where
  pub returns : Holds (load 4 w.mem) rsi.start_addr return_sequence
  pub entry : Holds (load 4 w.mem) rsi.relocated_gp (trampoline dst)
  pub elsewhere : (x : ℕ) → (x < rsi.start_addr) ⊎ (rsi.start_addr + 136 ≤ x) → w.mem x ≡ mem x

pub length-trampoline : (dst : ℕ) → length (trampoline dst) ≡ 20
unfolding trampoline
length-trampoline dst = refl

-- The trampoline is still there below the return sequence.
pub trampoline-Holds :
    (dst start gp : ℕ) (mem : Memory)
    → gp ≡ start + 56
    → Holds
        (load 4 (store_words (store_words mem gp (trampoline dst)) start return_sequence))
        gp
        (trampoline dst)
trampoline-Holds dst start gp mem place =
    let first : Memory = store_words mem gp (trampoline dst) in
    let last : Memory = store_words first start return_sequence in
    Holds-ext (load 4 last) (load 4 first) gp (trampoline dst)
      (λ x l.
        load_ext 4 last first x
          (λ y p q. store_words_above return_sequence first start y (omega arith)))
      (Holds-store_words (trampoline dst) mem gp)

-- Both arrays of words together.
installed_elsewhere :
    (dst : ℕ) (rsi : ReturnSequenceInfo) (mem : Memory)
    → rsi.relocated_gp ≡ rsi.start_addr + 56
    → (x : ℕ) → (x < rsi.start_addr) ⊎ (rsi.start_addr + 136 ≤ x)
    → store_words
        (store_words mem rsi.relocated_gp (trampoline dst))
        rsi.start_addr
        return_sequence
        x
      ≡ mem x
installed_elsewhere dst rsi mem place x (inl under) =
    store_words_below return_sequence _ rsi.start_addr x under
    ∙ store_words_below (trampoline dst) mem rsi.relocated_gp x (omega arith)
installed_elsewhere dst rsi mem place x (inr over) =
    store_words_above return_sequence _ rsi.start_addr x (omega arith)
    ∙ store_words_above (trampoline dst) mem rsi.relocated_gp x
        (omega (arith, length-trampoline dst))

-- When the mapping starts at a multiple of the page size, the request for its execute-only
-- protection is granted and `relocated_gp` is 56 bytes behind `start_addr`: `setup_return` behind
-- `setup_shadow_page_trampoline` ends with the return sequence at `start_addr` and the trampoline
-- behind it, at `relocated_gp`, and no byte outside these 136 is changed.
pub setup_return-Installed :
    (mprotect : Protection → Bool) (page_size dst : ℕ) (rsi : ReturnSequenceInfo) (mem : Memory)
    → (rsi.ret_sequence_page_addr % page_size == 0) ≡ true
    → mprotect (record { addr = rsi.ret_sequence_page_addr; len = 56 + rsi.start_offset }) ≡ true
    → rsi.relocated_gp ≡ rsi.start_addr + 56
    → (w : Written) × (setup_return mprotect page_size rsi
          (setup_shadow_page_trampoline dst rsi mem)
        ≡ ok w)
      × Installed dst rsi mem w
unfolding setup_return setup_shadow_page_trampoline
setup_return-Installed mprotect page_size dst rsi mem aligned granted place =
    let first : Memory = store_words mem rsi.relocated_gp (trampoline dst) in
    let last : Memory = store_words first rsi.start_addr return_sequence in
    (
      record {
        mem = last;
        protection = record { addr = rsi.ret_sequence_page_addr; len = 56 + rsi.start_offset };
      },
      rw (aligned, granted) refl,
      record {
        returns = Holds-store_words return_sequence first rsi.start_addr;
        entry = trampoline-Holds dst rsi.start_addr rsi.relocated_gp mem place;
        elsewhere = installed_elsewhere dst rsi mem place;
      },
    )
