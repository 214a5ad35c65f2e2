-- ===== src/Patcher/Formats.antt =====
-- src/patcher.c: the words of the trampoline are the formats of its instructions.
use vpoline.Common.{
  ℕ, ◌+◌, ◌-◌, ◌*◌, ◌/◌, ◌%◌, ◌^◌, ◌<◌, ◌≡◌, refl, arith, List, [], ◌∷◌, sext, ◌∙◌, ap, bit_and,
  bit_or, u32,
}
use vpoline.Common.Bits.{bit_or_low, bit_and_high}
use vpoline.Machine.{Insn, lui, addi, ori, slli, and, or, sd, decode}
use vpoline.Patcher.{trampoline, imm_fields}
use vpoline.Patcher.Immediates.{imm20, imm_fields-lui, imm_fields-addi, decode_lui, decode_addi}
use vpoline.Patcher.Words.{Decodes}

-- The instructions of the trampoline before its jump.
abbrev pub insns : (hi lo : ℕ) → List Insn
insns hi lo =
    addi 2 2 (2 ^ 64 - 304)
    ∷ sd 5 2 0
    ∷ sd 6 2 8
    ∷ sd 7 2 16
    ∷ sd 28 2 24
    ∷ lui 5 (imm20 hi)
    ∷ addi 5 5 (sext 12 (hi % 4096))
    ∷ slli 5 5 32
    ∷ lui 28 (imm20 lo)
    ∷ addi 28 28 (sext 12 (lo % 4096))
    ∷ lui 6 0x7_ffff
    ∷ ori 7 0 0x7ff
    ∷ slli 7 7 1
    ∷ ori 7 7 1
    ∷ or 6 6 7
    ∷ slli 6 6 1
    ∷ ori 6 6 1
    ∷ and 28 28 6
    ∷ or 5 5 28
    ∷ []

lui_word :
    (rd v : ℕ)
    → rd < 32
    → v < 2 ^ 32
    → decode (bit_or (rd * 128 + 0x37) (imm_fields v).lui_imm_field % 2 ^ 32) ≡ lui rd (imm20 v)
lui_word rd v h k =
    ap decode (
      omega (
        arith,
        imm_fields-lui v k,
        ap (bit_or (rd * 128 + 0x37)) (imm_fields-lui v k),
        bit_or_low 12 (imm20 v) (rd * 128 + 0x37) (omega arith),
      ))
    ∙ decode_lui rd (imm20 v) h (omega arith)

addi_word :
    (rd v : ℕ)
    → rd < 32
    → v < 2 ^ 32
    → decode (
        bit_or (rd * 2 ^ 15 + rd * 128 + 0x13) (u32 ((imm_fields v).addi_imm_field * 2 ^ 20))
        % 2 ^ 32)
      ≡ addi rd rd (sext 12 (v % 4096))
addi_word rd v h k =
    ap decode (
      omega (
        arith,
        ap (bit_or (rd * 2 ^ 15 + rd * 128 + 0x13)) (imm_fields-addi v k),
        bit_or_low 20 (v % 4096) (rd * 2 ^ 15 + rd * 128 + 0x13) (omega arith),
      ))
    ∙ decode_addi rd (v % 4096) h (omega arith)

pub upper : ℕ → ℕ
upper dst = bit_and dst 0xffff_ffff_0000_0000 / 2 ^ 32

pub upper_lem : (dst : ℕ) → dst < 2 ^ 64 → upper dst ≡ dst / 2 ^ 32
unfolding upper
upper_lem dst h = omega (arith, bit_and_high 32 32 dst)

pub trampoline-Decodes :
    (dst : ℕ) → dst < 2 ^ 64 → Decodes (trampoline dst) (insns (upper dst) (u32 dst))
unfolding trampoline decode upper
trampoline-Decodes dst h = (
  refl,
  refl,
  (
    refl,
    refl,
    (
      refl,
      refl,
      (
        refl,
        refl,
        (
          refl,
          refl,
          (
            lui_word 5 (upper dst) (omega arith) (omega (arith, upper_lem dst h)),
            refl,
            (
              addi_word 5 (upper dst) (omega arith) (omega (arith, upper_lem dst h)),
              refl,
              (
                refl,
                refl,
                (
                  lui_word 28 (u32 dst) (omega arith) (omega arith),
                  refl,
                  (
                    addi_word 28 (u32 dst) (omega arith) (omega arith),
                    refl,
                    (
                      refl,
                      refl,
                      (
                        refl,
                        refl,
                        (
                          refl,
                          refl,
                          (
                            refl,
                            refl,
                            (
                              refl,
                              refl,
                              (refl, refl, (refl, refl, (refl, refl, (refl, refl, tt)))),
                            ),
                          ),
                        ),
                      ),
                    ),
                  ),
                ),
              ),
            ),
          ),
        ),
      ),
    ),
  ),
)
