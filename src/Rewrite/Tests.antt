-- ===== src/Rewrite/Tests.antt =====
-- A concrete decoder and range of code, and the theorems of the rewriting at them.
use vpoline.Common.{
  ℕ, ◌%◌, ◌≡◌, refl, arith, if◌then◌else◌, Bool, true, ◌==◌, leb, Option, none, some, inl, inr,
  Bool-cases, [], ◌∷◌,
}
use vpoline.Common.Exit.{ok, exit}
use vpoline.Memory.{Memory, load, store_words}
use vpoline.Memory.Laws.{load_ext}
use vpoline.Rewrite.{CsInsn, Capstone, Mprotect, disassemble_and_rewrite}
use vpoline.Rewrite.Sweep.{IsCapstone}
use vpoline.Rewrite.Patched.{
  Rewritten, disassemble_and_rewrite-Rewritten, disassemble_and_rewrite-exit,
}

-- An instruction by its length bits, where four bytes are left.
abbrev decode_word : ℕ → CsInsn
decode_word w = record { size = if (w % 4) == 3 then 4 else 2; is_ecall = w == 0x73 }

abbrev disasm : Memory → (address size : ℕ) → Option CsInsn
disasm m a size = if leb 4 size then some (decode_word (load 4 m a)) else none

abbrev pub capstone : Capstone
capstone = record {
  cs_open = true;
  cs_option_detail = true;
  cs_option_mem = true;
  cs_malloc = true;
  cs_disasm_iter = disasm;
}

pub capstone-IsCapstone : IsCapstone capstone
capstone-IsCapstone = record {
  local = λ m m' a size same. elim (Bool-cases (leb 4 size)) [
    | inl enough ↦
        let e : load 4 m a ≡ load 4 m' a = load_ext 4 m m' a (λ x p q. same x p (ground arith)) in
        rw (enough, e) refl
    | inr short ↦ rw short refl
  ];
  fits = λ m a size i e. ground arith;
  ecall_size = λ m a size i e call. ground arith;
}

-- c.nop, ecall, a wide instruction, ecall.
abbrev code : Memory
code = store_words (λ x. 0) 0x1000 (0x0073_0001 ∷ 0x0513_0000 ∷ 0x0073_0015 ∷ 0 ∷ [])

disassemble_and_rewrite-Rewritten_example :
    (m' : Memory) × (disassemble_and_rewrite capstone (λ request. true) 0x1000 16 5 code
      ≡ some (ok m'))
    × Rewritten capstone 0x1000 16 code m'
disassemble_and_rewrite-Rewritten_example =
    disassemble_and_rewrite-Rewritten capstone capstone-IsCapstone (λ request. true) 0x1000 16 5
      code refl refl refl (omega arith) (omega arith)

-- A system that grants no second request.
abbrev only_writable : Mprotect → Bool
only_writable request = request.prot == 7

disassemble_and_rewrite-exit_example :
    disassemble_and_rewrite capstone only_writable 0x1000 16 5 code ≡ some (exit 1)
disassemble_and_rewrite-exit_example =
    disassemble_and_rewrite-exit capstone capstone-IsCapstone only_writable 0x1000 16 5 code
      (inr (inr (refl, omega arith, omega arith)))
