-- ===== src/Patcher/Trampoline.antt =====
-- src/patcher.c: the trampoline runs to its target, for every target.
use vpoline.Common.{
  ℕ, ◌+◌, ◌-◌, ◌*◌, ◌/◌, ◌%◌, ◌^◌, ◌<◌, ◌≡◌, ◌≢◌, refl, arith, some, u64, ◌∙◌, ap, bit_and, bit_or,
  u32, ==_ne, inl, inr, Bool-cases, ◌==◌,
}
use vpoline.Common.Bits.{bit_and_low, bit_or_high}
use vpoline.Memory.{Memory, store}
use vpoline.Machine.{jalr, State, Kernel, decode, go, run}
use vpoline.Machine.Straight.{apply_all, run_straight, run_step}
use vpoline.Patcher.{trampoline}
use vpoline.Patcher.Immediates.{loaded, loaded_low}
use vpoline.Patcher.Words.{Holds, Code-of_words, Holds-get}
use vpoline.Patcher.Formats.{insns, upper, upper_lem, trampoline-Decodes}

-- The stack after the first five instructions: t0 to t3 in a new frame of 304 bytes.
abbrev pub saved : State → Memory
saved s =
    let sp : ℕ = u64 (s.regs 2 + (2 ^ 64 - 304)) in
    store 8
      (store 8 (store 8 (store 8 s.mem (u64 (sp + 0)) (s.regs 5)) (u64 (sp + 8)) (s.regs 6))
        (u64 (sp + 16)) (s.regs 7))
      (u64 (sp + 24)) (s.regs 28)

join_halves :
    (a b hi lo : ℕ)
    → a % 2 ^ 32 ≡ hi
    → b % 2 ^ 32 ≡ lo
    → bit_or (u64 (a * 2 ^ 32)) (bit_and b (2 ^ 32 - 1)) ≡ hi * 2 ^ 32 + lo
join_halves a b hi lo p q =
    let e : u64 (a * 2 ^ 32) ≡ hi * 2 ^ 32 = omega arith in
    rw (e, bit_and_low 32 b, q) (bit_or_high 32 hi lo (omega arith))

loads_target :
    (s : State) (dst : ℕ) → dst < 2 ^ 64 → (apply_all (insns (upper dst) (u32 dst)) s).regs 5 ≡ dst
unfolding loaded
loads_target s dst h =
    join_halves (loaded (upper dst)) (loaded (u32 dst)) (upper dst) (u32 dst)
      (loaded_low (upper dst) (omega (arith, upper_lem dst h))) (loaded_low (u32 dst) (omega arith))
    ∙ omega (arith, upper_lem dst h)

effects_frame :
    (s : State) (hi lo r : ℕ)
    → r ≢ 2
    → r ≢ 5
    → r ≢ 6
    → r ≢ 7
    → r ≢ 28
    → (apply_all (insns hi lo) s).regs r ≡ s.regs r
effects_frame s hi lo r n2 n5 n6 n7 n28 =
    rw (==_ne r 2 n2, ==_ne r 5 n5, ==_ne r 6 n6, ==_ne r 7 n7, ==_ne r 28 n28)

bit_and-lt : (x : ℕ) → bit_and x (2 ^ 32 - 1) < 2 ^ 64
bit_and-lt x = omega (arith, bit_and_low 32 x)

-- The registers still hold 64-bit values.
effects_words :
    (s : State) (dst r : ℕ)
    → dst < 2 ^ 64
    → ((i : ℕ) → s.regs i < 2 ^ 64)
    → (apply_all (insns (upper dst) (u32 dst)) s).regs r < 2 ^ 64
effects_words s dst r small w = elim (Bool-cases (r == 5)) [
  | inl e ↦ let same : r ≡ 5 = ground arith in rw (same, loads_target s dst small) small
  | inr n5 ↦ elim (Bool-cases (r == 28)) [
    | inl e ↦ let same : r ≡ 28 = ground arith in rw same (bit_and-lt _)
    | inr n28 ↦ elim (Bool-cases (r == 2)) [
      | inl e ↦ let same : r ≡ 2 = ground arith in rw same (omega arith)
      | inr n2 ↦ elim (Bool-cases (r == 6)) [
        | inl e ↦ let same : r ≡ 6 = ground arith in rw same (omega arith)
        | inr n6 ↦ elim (Bool-cases (r == 7)) [
          | inl e ↦ let same : r ≡ 7 = ground arith in rw same (omega arith)
          | inr n7 ↦ rw (n2, n5, n6, n7, n28) (w r)
        ]
      ]
    ]
  ]
]

effects_mem : (s : State) (hi lo : ℕ) → (apply_all (insns hi lo) s).mem ≡ saved s
effects_mem s hi lo = refl

-- What the hook entry finds: the frame is set up, and nothing else has changed but t0 to t3.
pub record Enters (dst : ℕ) (s t : State) : Type 0 where
  pub at_target : t.pc ≡ dst
  pub frame : t.regs 2 ≡ u64 (s.regs 2 + (2 ^ 64 - 304))
  pub stack : t.mem ≡ saved s
  pub no_call : t.calls ≡ s.calls
  pub words : ((r : ℕ) → s.regs r < 2 ^ 64) → (r : ℕ) → t.regs r < 2 ^ 64
  pub kept : (r : ℕ) → r ≢ 2 → r ≢ 5 → r ≢ 6 → r ≢ 7 → r ≢ 28 → t.regs r ≡ s.regs r

-- For every even 64-bit target, a processor that stands at the words of the trampoline, which end
-- below 2^64, reaches the target in 20 instructions, with t0 to t3 saved in a new frame of 304 bytes,
-- every register but these and sp kept, 64-bit values in all registers if there were before, and
-- no system call made.
pub trampoline-Enters :
    (k : Kernel) (fetch : ℕ → ℕ) (dst : ℕ) (s : State)
    → dst < 2 ^ 64
    → dst % 2 ≡ 0
    → s.pc + 80 < 2 ^ 64
    → Holds fetch s.pc (trampoline dst)
    → (t : State) × (run k fetch 20 s ≡ some t) × Enters dst s t
unfolding run
trampoline-Enters k fetch dst s small even fits words =
    let is = insns (upper dst) (u32 dst) in
    let code = Code-of_words fetch s.pc (trampoline dst) is words (trampoline-Decodes dst small) in
    let s' = go (s.pc + 76) (apply_all is s) in
    let jump =
      Holds-get fetch s.pc (trampoline dst) 19 0x0002_8067 words (unfold trampoline in refl) in
    let t = go dst s' in
    let target : u64 (s'.regs 5 + 0) / 2 * 2 ≡ dst = omega (arith, loads_target s dst small) in
    (
      t,
      run_straight k fetch is 1 s code (omega arith)
          ∙ run_step k fetch 0 s' (jalr 0 5 0) (ap decode jump ∙ unfold decode in refl)
              (ap (λ (a : ℕ). some (go a s')) target)
          ∙ refl,
      record {
        at_target = refl;
        frame = refl;
        stack = effects_mem s (upper dst) (u32 dst);
        no_call = refl;
        words = λ w r. effects_words s dst r small w;
        kept = λ r n2 n5 n6 n7 n28. effects_frame s (upper dst) (u32 dst) r n2 n5 n6 n7 n28;
      },
    )
