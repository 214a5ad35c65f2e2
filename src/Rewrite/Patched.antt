-- ===== src/Rewrite/Patched.antt =====
-- src/main.c: what `disassemble_and_rewrite` leaves in memory.
use mathlib.Core.List.{Memᴰ}
use vpoline.Common.{
  ℕ, ◌+◌, ◌-◌, ◌^◌, ◌≤◌, ◌<◌, ◌≡◌, refl, arith, Bool, true, false, ◌&&◌, List, [], ◌∷◌, some, u64,
  sub64, ◌∙◌, inl, inr, ◌⊎◌, Bool-cases,
}
use vpoline.Common.Exit.{Exit, ok, exit}
use vpoline.Memory.{Memory, load, store}
use vpoline.Memory.Laws.{store_outside, load_ext, load-store_4}
use vpoline.Rewrite.{
  Capstone, InterceptDisasmContext, intercept_disasm_init, disassemble_and_rewrite, Mprotect,
  jalr_gp, rewrite_loop, after_loop,
}
use vpoline.Rewrite.Sweep.{IsCapstone, Sweeps, patch, loop_sweeps}
use Memᴰ.{head, tail}
use Sweeps.{finished, skipped, passed, found}

-- A byte that belongs to none of the words at the addresses.
abbrev pub Outside : List ℕ → ℕ → Type 0
Outside l x = (a : ℕ) → Memᴰ a l → (x < a) ⊎ (a + 4 ≤ x)

-- The addresses lie from `low` up to `last`, each four bytes behind the one before.
abbrev pub Spread : (low last : ℕ) → List ℕ → Type 0
Spread low last [] = Unit
Spread low last (a ∷ l) = (low ≤ a) × (a + 4 ≤ last + 1) × Spread (a + 4) last l

lower : (low low' last : ℕ) (l : List ℕ) → low ≤ low' → Spread low' last l → Spread low last l
lower low low' last [] h s = tt
lower low low' last (a ∷ l) h (p, q, s) = (omega arith, q, s)

pub Sweeps-Spread :
    (cs : Capstone)
    → IsCapstone cs
    → (m : Memory) (last a : ℕ) (l : List ℕ) → Sweeps cs m last a l
    → Spread a last l
Sweeps-Spread cs is m last a _ (finished _ past) = tt
Sweeps-Spread cs is m last a l (skipped _ _ le e s) =
    lower a (a + 1) last l (omega arith) (Sweeps-Spread cs is m last (a + 1) l s)
Sweeps-Spread cs is m last a l (passed _ i _ le e is_other s) =
    lower a (a + i.size) last l (omega arith) (Sweeps-Spread cs is m last (a + i.size) l s)
Sweeps-Spread cs is m last a _ (found _ i l le e is_call s) =
    let four : i.size ≡ 4 = is.ecall_size m a (last + 1 - a) i e is_call in
    let (pos, fit) = is.fits m a (last + 1 - a) i e in
    (
      omega arith,
      omega arith,
      lower (a + 4) (a + i.size) last l (omega arith) (Sweeps-Spread cs is m last (a + i.size) l s),
    )

pub patch-Outside : (l : List ℕ) (m : Memory) (x : ℕ) → Outside l x → patch l m x ≡ m x
unfolding patch
patch-Outside [] m x out = refl
patch-Outside (a ∷ l) m x out =
    patch-Outside l (store 4 m a jalr_gp) x (λ b e. out b (tail e))
    ∙ store_outside 4 m a jalr_gp x (out a (head refl))

pub Spread-Mem : (low last a : ℕ) (l : List ℕ) → Spread low last l → Memᴰ a l → low ≤ a
Spread-Mem low last a [] s e = elim e [ ]
Spread-Mem low last a (b ∷ l) (p, q, s) (head e) = omega arith
Spread-Mem low last a (b ∷ l) (p, q, s) (tail e) = omega (arith, Spread-Mem (b + 4) last a l s e)

pub Spread-Mem_last :
    (low last a : ℕ) (l : List ℕ) → Spread low last l → Memᴰ a l → a + 4 ≤ last + 1
Spread-Mem_last low last a [] s e = elim e [ ]
Spread-Mem_last low last a (b ∷ l) (p, q, s) (head e) = omega arith
Spread-Mem_last low last a (b ∷ l) (p, q, s) (tail e) = Spread-Mem_last (b + 4) last a l s e

pub patch-Mem :
    (l : List ℕ) (m : Memory) (low last a : ℕ)
    → Spread low last l
    → Memᴰ a l
    → load 4 (patch l m) a ≡ jalr_gp
unfolding patch
patch-Mem [] m low last a s e = elim e [ ]
patch-Mem (b ∷ l) m low last a (p, q, s) (head e) =
    let first : Memory = store 4 m b jalr_gp in
    rw e (
      load_ext 4 (patch l first) first b (λ x r t.
        patch-Outside l first x (λ c i. inl (omega (arith, Spread-Mem (b + 4) last c l s i))))
      ∙ load-store_4 m b jalr_gp)
patch-Mem (b ∷ l) m low last a (p, q, s) (tail e) =
    patch-Mem l (store 4 m b jalr_gp) (b + 4) last a s e

-- The memory after the rewriting of a range: the addresses of the linear sweep, all inside the
-- range, `jalr gp, gp, 0` at each of them, and every other byte as it was.
pub record Rewritten (cs : Capstone) (code code_size : ℕ) (m m' : Memory) : Type 0 where
  pub sites : List ℕ
  pub swept : Sweeps cs m (code + code_size - 1) code sites
  pub inside : (a : ℕ) → Memᴰ a sites → (code ≤ a) × (a + 4 ≤ code + code_size)
  pub replaced : (a : ℕ) → Memᴰ a sites → load 4 m' a ≡ jalr_gp
  pub others : (x : ℕ) → Outside sites x → m' x ≡ m x

module _ (cs : Capstone) (is : IsCapstone cs) (mprotect : Mprotect → Bool)
    (code code_size mem_prot : ℕ) (m : Memory) where
  abbrev range : InterceptDisasmContext
  range = record { begin_address = code; end_address = code + code_size - 1 }

  abbrev is_ready : Bool
  is_ready = cs.cs_open && cs.cs_option_detail && cs.cs_option_mem && cs.cs_malloc

  after_set_up :
      (result : Exit Memory)
      → is_ready ≡ true
      → mprotect (record { addr = code; len = code_size; prot = 7 }) ≡ true
      → 1 ≤ code_size
      → code + code_size < 2 ^ 64
      → rewrite_loop cs range code_size code m ≡ some result
      → disassemble_and_rewrite cs mprotect code code_size mem_prot m
        ≡ some (
            after_loop (mprotect (record { addr = code; len = code_size; prot = mem_prot })) result)
  unfolding disassemble_and_rewrite intercept_disasm_init
  after_set_up result ready granted pos room runs =
      let place : sub64 (u64 (code + code_size)) 1 ≡ code + code_size - 1 = omega arith in
      rw (disassemble_and_rewrite, granted, intercept_disasm_init, ready, place, runs) refl

  -- When capstone starts, decodes only the bytes it is given, to instructions that are not empty
  -- and lie in them, and gives `ecall` four bytes, and both calls of `mprotect` succeed, then for
  -- every non-empty range below 2^64 the rewriting ends: every `ecall` of the linear sweep of the
  -- original code is now `jalr gp, gp, 0`, and every byte of no such `ecall`, inside the range or
  -- outside, is as it was.
  pub disassemble_and_rewrite-Rewritten :
      (cs.cs_open && cs.cs_option_detail && cs.cs_option_mem && cs.cs_malloc) ≡ true
      → mprotect (record { addr = code; len = code_size; prot = 7 }) ≡ true
      → mprotect (record { addr = code; len = code_size; prot = mem_prot }) ≡ true
      → 1 ≤ code_size
      → code + code_size < 2 ^ 64
      → (m' : Memory) × (disassemble_and_rewrite cs mprotect code code_size mem_prot m
          ≡ some (ok m'))
        × Rewritten cs code code_size m m'
  disassemble_and_rewrite-Rewritten ready granted restored pos room =
      let last : ℕ = code + code_size - 1 in
      let (l, sweeps, runs) =
        loop_sweeps cs is range (omega arith) m code_size code m (omega arith) (λ x p. refl) in
      let spread = Sweeps-Spread cs is m last code l sweeps in
      (
        patch l m,
        after_set_up (ok (patch l m)) ready granted pos room runs ∙ rw restored refl,
        record {
          sites = l;
          swept = sweeps;
          inside = λ a e. omega (
            arith,
            pos,
            Spread-Mem code last a l spread e,
            Spread-Mem_last code last a l spread e,
          );
          replaced = λ a e. patch-Mem l m code last a spread e;
          others = patch-Outside l m;
        },
      )

  last_refused :
      (mprotect (record { addr = code; len = code_size; prot = 7 }) ≡ false)
        ⊎ ((is_ready ≡ false)
            ⊎ ((mprotect (record { addr = code; len = code_size; prot = mem_prot }) ≡ false)
                × (1 ≤ code_size)
                × (code + code_size < 2 ^ 64)))
      → mprotect (record { addr = code; len = code_size; prot = 7 }) ≡ true
      → is_ready ≡ true
      → disassemble_and_rewrite cs mprotect code code_size mem_prot m ≡ some (exit 1)
  last_refused (inl refused) granted ready = cc
  last_refused (inr (inl unready)) granted ready = cc
  last_refused (inr (inr (kept, pos, room))) granted ready =
      let (l, sweeps, runs) =
        loop_sweeps cs is range (omega arith) m code_size code m (omega arith) (λ x p. refl) in
      after_set_up (ok (patch l m)) ready granted pos room runs ∙ rw kept refl

  -- For a capstone that decodes only the bytes it is given, to instructions that are not
  -- empty and lie in them, and gives `ecall` four bytes: when the first `mprotect` or a call of
  -- capstone for the set-up fails, or the range is not empty and below 2^64 and the second
  -- `mprotect` fails, then the process ends with status 1.
  pub disassemble_and_rewrite-exit :
      (mprotect (record { addr = code; len = code_size; prot = 7 }) ≡ false)
        ⊎ ((is_ready ≡ false)
            ⊎ ((mprotect (record { addr = code; len = code_size; prot = mem_prot }) ≡ false)
                × (1 ≤ code_size)
                × (code + code_size < 2 ^ 64)))
      → disassemble_and_rewrite cs mprotect code code_size mem_prot m ≡ some (exit 1)
  unfolding disassemble_and_rewrite intercept_disasm_init
  disassemble_and_rewrite-exit failed =
      elim (Bool-cases (mprotect (record { addr = code; len = code_size; prot = 7 }))) [
        | inr refused ↦ rw (disassemble_and_rewrite, refused) refl
        | inl granted ↦ elim (Bool-cases is_ready) [
          | inr unready ↦ rw (disassemble_and_rewrite, granted, intercept_disasm_init, unready) refl
          | inl ready ↦ last_refused failed granted ready
        ]
      ]
