-- ===== src/Handler/Handle.antt =====
-- src/sigsegv_handler.c: what `segfault_handler` does with each fault.
use vpoline.Common.{
  ℕ, ◌+◌, ◌-◌, ◌%◌, ◌^◌, ◌≤◌, ◌<◌, ◌≡◌, ◌≢◌, ◌↔◌, inl, inr, arith, ◌==◌, ltb, ◌||◌, ◌∙◌, sym, ap,
  if◌then◌else◌, bit_and, none, some, u64, sub64, Bool, true, false, Bool-cases,
}
use vpoline.Common.Bits.{bit_and_low}
use vpoline.Common.Exit.{Exit, ok, exit}
use vpoline.Memory.{Memory, load}
use vpoline.Memory.Laws.{IsBytes}
use vpoline.Layout.{ReturnSequenceInfo}
use vpoline.Handler.{State, raised, exited, advance, finish, is_32bit, segfault_handler}
use vpoline.Handler.Emulate.{Context}
use vpoline.Handler.Isa.{Access, access, insn_length, perform}
use vpoline.Handler.Refinement.{effect}
use vpoline.Handler.Dispatch.{
  IsReserved, is_reserved, emulate_32bit-effect, emulate_32bit_reserved, emulate_16bit-effect,
}

-- The execute-only pages and the pages that they shadow lie below `2 ^ 64`.
pub record IsShadow (rsi : ReturnSequenceInfo) : Type 0 where
  pub pages : rsi.ret_sequence_page_addr + rsi.protection_size < 2 ^ 64
  pub backup : rsi.start_addr_page + rsi.protection_size < 2 ^ 64
  pub nonempty : 0 < rsi.protection_size

-- An address in the execute-only pages.
abbrev pub InShadow : ReturnSequenceInfo → ℕ → Type 0
InShadow rsi a =
    (rsi.ret_sequence_page_addr ≤ a) × (a < rsi.ret_sequence_page_addr + rsi.protection_size)

-- The byte of the program's own pages at the same offset.
abbrev pub backup_of : ReturnSequenceInfo → ℕ → ℕ
backup_of rsi a = rsi.start_addr_page + (a - rsi.ret_sequence_page_addr)

-- The instruction at the program counter.
abbrev pub insn_at : Context → Memory → ℕ
insn_at ctx mem = load 4 mem (ctx.gregs 0)

some-ne-none : {A : Type 0} {a : A} → some a ≢ none
some-ne-none e = cc

reserved_access : (w : ℕ) → IsReserved w → access w ≡ none
unfolding access
reserved_access w r = ground arith

is_reserved→IsReserved : (w : ℕ) → is_reserved w ≡ true → IsReserved w
is_reserved→IsReserved w h = ground arith

IsReserved-not : (w : ℕ) → is_reserved w ≡ false → ¬ IsReserved w
IsReserved-not w h r = ground arith

finish-ne-raised : (n : ℕ) (r : Exit State) → finish n r ≢ raised
finish-ne-raised n (ok s) e = cc
finish-ne-raised n (exit c) e = cc

branch-ne-raised : (b : Bool) (r q : Exit State) → (if b then finish 4 r else finish 2 q) ≢ raised
branch-ne-raised true r q e = finish-ne-raised 4 r e
branch-ne-raised false r q e = finish-ne-raised 2 q e

load_half : (mem : Memory) (a : ℕ) → IsBytes mem → load 2 mem a ≡ load 4 mem a % 2 ^ 16
unfolding load
load_half mem a h = omega (arith, h a, h (a + 1), h (a + 1 + 1), h (a + 1 + 1 + 1))

is_32bit_lem : (c w : ℕ) → c ≡ w % 2 ^ 16 → is_32bit c ≡ ((w % 4) == 3)
is_32bit_lem c w e = let m : bit_and c 3 ≡ w % 4 = bit_and_low 2 c ∙ omega arith in rw m

module _ (rsi : ReturnSequenceInfo) (sh : IsShadow rsi) (si_addr : ℕ) (ctx : Context) (mem : Memory)
    (bytes : IsBytes mem) where
  inside_tests :
      InShadow rsi si_addr
      → (ltb si_addr rsi.ret_sequence_page_addr
          || ltb (sub64 (u64 (rsi.ret_sequence_page_addr + rsi.protection_size)) 1) si_addr)
        ≡ false
  inside_tests h = ground arith

  outside_tests :
      ¬ InShadow rsi si_addr
      → (ltb si_addr rsi.ret_sequence_page_addr
          || ltb (sub64 (u64 (rsi.ret_sequence_page_addr + rsi.protection_size)) 1) si_addr)
        ≡ true
  outside_tests n = elim (Bool-cases (ltb si_addr rsi.ret_sequence_page_addr)) [
    | inl below ↦ rw below
    | inr above ↦ rw above (
        ground (
          arith,
          λ (p : rsi.ret_sequence_page_addr ≤ si_addr)
                (q : si_addr < rsi.ret_sequence_page_addr + rsi.protection_size).
              n (p, q),
        ))
  ]

  -- In the execute-only pages the handler has the effect of the instruction on the shadowed bytes.
  shadow_effect :
      InShadow rsi si_addr
      → ¬ IsReserved (insn_at ctx mem)
      → segfault_handler rsi si_addr ctx mem
        ≡ finish
            (insn_length (insn_at ctx mem))
            (effect (access (insn_at ctx mem)) (backup_of rsi si_addr) ctx mem)
  unfolding segfault_handler
  shadow_effect h r =
      let w = insn_at ctx mem in
      let addr : u64 (rsi.start_addr_page + sub64 si_addr rsi.ret_sequence_page_addr)
          ≡ backup_of rsi si_addr =
        omega arith in
      rw (inside_tests h, is_32bit_lem _ w (load_half mem (ctx.gregs 0) bytes), addr)
        (elim (Bool-cases ((w % 4) == 3)) [
          | inl wide ↦ rw wide (
              ap (finish 4)
                (emulate_32bit-effect ctx mem (backup_of rsi si_addr) bytes w (ground arith) r))
          | inr short ↦ rw short (
              ap (finish 2) (
                emulate_16bit-effect ctx mem (backup_of rsi si_addr) bytes w _
                  (load_half mem (ctx.gregs 0) bytes) (ground arith)))
        ])

  -- A fault of a load or store of RV64I, F, D or C in the execute-only pages: the handler returns
  -- with the effect that the manual gives that instruction, at the same offset in the program's own
  -- pages, and with the program counter behind the instruction. Both are below 2 ^ 64 and memory
  -- holds bytes.
  pub segfault_handler-perform :
      (i : Access)
      → InShadow rsi si_addr
      → access (insn_at ctx mem) ≡ some i
      → segfault_handler rsi si_addr ctx mem
        ≡ advance (insn_length (insn_at ctx mem)) (perform i (backup_of rsi si_addr) ctx mem)
  segfault_handler-perform i h e =
      shadow_effect h (λ r. some-ne-none (sym e ∙ reserved_access (insn_at ctx mem) r))
      ∙ ap (λ o. finish (insn_length (insn_at ctx mem)) (effect o (backup_of rsi si_addr) ctx mem))
          e

  shadow_reserved :
      InShadow rsi si_addr
      → IsReserved (insn_at ctx mem)
      → segfault_handler rsi si_addr ctx mem ≡ advance 4 (ctx, mem)
  unfolding segfault_handler
  shadow_reserved h r =
      let w = insn_at ctx mem in
      let three : (w % 4 == 3) ≡ true = ground arith in
      rw (inside_tests h, is_32bit_lem _ w (load_half mem (ctx.gregs 0) bytes), three)
        (ap (finish 4) (emulate_32bit_reserved ctx mem _ bytes w r))

  -- Any other instruction that faults in the execute-only pages ends the process with status 1,
  -- except the reserved load into register 0, which is skipped.
  pub segfault_handler-unsupported :
      InShadow rsi si_addr
      → access (insn_at ctx mem) ≡ none
      → segfault_handler rsi si_addr ctx mem
        ≡ (if is_reserved (insn_at ctx mem) then advance 4 (ctx, mem) else exited 1)
  segfault_handler-unsupported h e = elim (Bool-cases (is_reserved (insn_at ctx mem))) [
    | inl y ↦
        let r : IsReserved (insn_at ctx mem) = is_reserved→IsReserved (insn_at ctx mem) y in
        rw y (shadow_reserved h r)
    | inr n ↦ rw n (
        shadow_effect h (λ r. IsReserved-not (insn_at ctx mem) n r)
        ∙ ap
            (λ o. finish (insn_length (insn_at ctx mem)) (effect o (backup_of rsi si_addr) ctx mem))
            e)
  ]

  -- A fault anywhere else, and only there, is given back to the default action.
  pub segfault_handler-raised_iff :
      (segfault_handler rsi si_addr ctx mem ≡ raised) ↔ ¬ InShadow rsi si_addr
  unfolding segfault_handler
  segfault_handler-raised_iff =
      (λ e h. branch-ne-raised _ _ _ (rw (inside_tests h) at e), λ n. rw (outside_tests n))
