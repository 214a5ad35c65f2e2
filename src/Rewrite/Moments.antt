-- ===== src/Rewrite/Moments.antt =====
-- src/main.c: the memory between two instructions of the loop of `disassemble_and_rewrite`.
use mathlib.Core.List.{append_assoc}
use vpoline.Common.{
  ℕ, ◌+◌, ◌-◌, ◌^◌, ◌≤◌, ◌<◌, ◌≡◌, refl, arith, true, false, leb, ◌==◌, List, [], ◌∷◌, ◌++◌, none,
  some, u64, sub64, ◌∙◌, sym, ap, inr,
}
use vpoline.Common.Exit.{ok, ok-inj}
use vpoline.Memory.{Memory, store}
use vpoline.Memory.Laws.{store_outside}
use vpoline.Rewrite.{
  CsInsn, Capstone, InterceptDisasmContext, InterceptDisasmResult,
  intercept_disasm_next_instruction, rewrite_instruction, jalr_gp,
}
use vpoline.Rewrite.Sweep.{IsCapstone, Sweeps, patch, same_insn}
use Sweeps.{finished, skipped, passed, found}

-- The passes of the loop, from an address and a memory on.
pub data Reaches (cs : Capstone) (context : InterceptDisasmContext) (a : ℕ) (m : Memory)
    : ℕ → Memory → Type 0 where
  start : Reaches cs context a m a m
  pass :
      (b : ℕ) (mem : Memory) (r : InterceptDisasmResult)
      → Reaches cs context a m b mem
      → leb b context.end_address ≡ true
      → intercept_disasm_next_instruction cs context mem b ≡ ok r
      → Reaches cs context a m (rewrite_instruction b mem r).0 (rewrite_instruction b mem r).1

pub patch-append : (l l' : List ℕ) (m : Memory) → patch (l ++ l') m ≡ patch l' (patch l m)
unfolding patch
patch-append [] l' m = refl
patch-append (a ∷ l) l' m = patch-append l l' (store 4 m a jalr_gp)

module _ (cs : Capstone) (is : IsCapstone cs) (context : InterceptDisasmContext)
    (room : context.end_address + 1 < 2 ^ 64) (m : Memory) (first : ℕ) (sites : List ℕ) where
  abbrev last : ℕ
  last = context.end_address

  -- A part of the sites is replaced, and the sweep finds the others from here on.
  pub record Moment (b : ℕ) (mem : Memory) : Type 0 where
    pub replaced : List ℕ
    pub waiting : List ℕ
    pub all : replaced ++ waiting ≡ sites
    pub patched : mem ≡ patch replaced m
    pub swept : Sweeps cs m last b waiting
    pub ahead : (x : ℕ) → b ≤ x → mem x ≡ m x

  next-none :
      (b : ℕ) (mem : Memory)
      → cs.cs_disasm_iter mem b (u64 (sub64 last b + 1)) ≡ none
      → intercept_disasm_next_instruction cs context mem b
        ≡ ok (record { address = b; is_syscall = false; length = 0 })
  unfolding intercept_disasm_next_instruction
  next-none b mem e = rw (intercept_disasm_next_instruction, e) refl

  next-some :
      (b : ℕ) (mem : Memory) (i : CsInsn)
      → cs.cs_disasm_iter mem b (u64 (sub64 last b + 1)) ≡ some i
      → 1 ≤ i.size
      → intercept_disasm_next_instruction cs context mem b
        ≡ ok (record { address = b; is_syscall = i.is_ecall; length = i.size })
  unfolding intercept_disasm_next_instruction
  next-some b mem i e pos =
      let full : (i.size == 0) ≡ false = ground arith in
      rw (intercept_disasm_next_instruction, e, full) refl

  Moment-cast : (b b' : ℕ) (mem mem' : Memory) → b ≡ b' → mem ≡ mem' → Moment b mem → Moment b' mem'
  Moment-cast b b' mem mem' e e' x = rw (← e, ← e') x

  -- One pass from `b` on, by what the sweep finds there.
  pass_swept :
      (b : ℕ) (mem : Memory) (r : InterceptDisasmResult) (done wait : List ℕ)
      → done ++ wait ≡ sites
      → mem ≡ patch done m
      → Sweeps cs m last b wait
      → ((x : ℕ) → b ≤ x → mem x ≡ m x)
      → leb b last ≡ true
      → intercept_disasm_next_instruction cs context mem b ≡ ok r
      → Moment (rewrite_instruction b mem r).0 (rewrite_instruction b mem r).1
  pass_swept b mem r done _ all patched (finished _ past) ahead here e = absurd (ground arith)
  pass_swept b mem r done wait all patched (skipped _ _ le gap s) ahead here e =
      let seen = same_insn cs is context room m b mem le ahead ∙ gap in
      let what = ok-inj (sym e ∙ next-none b mem seen) in
      let next : b + 1 ≡ u64 (b + 1) = omega (arith, le, room) in
      rw what (
        Moment-cast (b + 1) (u64 (b + 1)) mem mem next refl (record {
          replaced = done;
          waiting = wait;
          all = all;
          patched = patched;
          swept = s;
          ahead = λ x p. ahead x (omega arith);
        }))
  pass_swept b mem r done wait all patched (passed _ i _ le insn is_other s) ahead here e =
      let (pos, fit) = is.fits m b (last + 1 - b) i insn in
      let seen = same_insn cs is context room m b mem le ahead ∙ insn in
      let what = ok-inj (sym e ∙ next-some b mem i seen pos) in
      let full : (i.size == 0) ≡ false = ground arith in
      let next : b + i.size ≡ u64 (b + i.size) = omega (arith, le, room, fit) in
      rw (what, full, is_other)
        (Moment-cast (b + i.size) (u64 (b + i.size)) mem mem next refl (record {
          replaced = done;
          waiting = wait;
          all = all;
          patched = patched;
          swept = s;
          ahead = λ x p. ahead x (omega arith);
        }))
  pass_swept b mem r done _ all patched (found _ i wait le insn is_call s) ahead here e =
      let (pos, fit) = is.fits m b (last + 1 - b) i insn in
      let four : i.size ≡ 4 = is.ecall_size m b (last + 1 - b) i insn is_call in
      let seen = same_insn cs is context room m b mem le ahead ∙ insn in
      let what = ok-inj (sym e ∙ next-some b mem i seen pos) in
      let full : (i.size == 0) ≡ false = ground arith in
      let next : b + i.size ≡ u64 (b + i.size) = omega (arith, le, room, fit) in
      let mem' : Memory = store 4 mem b jalr_gp in
      rw (what, full, is_call)
        (Moment-cast (b + i.size) (u64 (b + i.size)) mem' mem' next refl (record {
          replaced = done ++ (b ∷ []);
          waiting = wait;
          all = append_assoc done (b ∷ []) wait ∙ all;
          patched =
              ap (λ (k : Memory). store 4 k b jalr_gp) patched
              ∙ sym (patch-append done (b ∷ []) m ∙ unfold patch in refl);
          swept = s;
          ahead =
              λ x p. store_outside 4 mem b jalr_gp x (inr (omega arith)) ∙ ahead x (omega arith);
        }))

  pub Reaches-Moment :
      Sweeps cs m last first sites
      → (b : ℕ) (mem : Memory) → Reaches cs context first m b mem
      → Moment b mem
  Reaches-Moment s _ _ Reaches.start = record {
    replaced = [];
    waiting = sites;
    all = refl;
    patched = unfold patch in refl;
    swept = s;
    ahead = λ x p. refl;
  }
  Reaches-Moment s _ _ (Reaches.pass b mem r before le e) =
      let x = Reaches-Moment s b mem before in
      pass_swept b mem r x.replaced x.waiting x.all x.patched x.swept x.ahead le e
