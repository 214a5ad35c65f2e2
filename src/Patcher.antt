-- ===== src/Patcher.antt =====
-- src/patcher.c: the code that the library writes before and behind the relocated global pointer.
pub mod Immediates
pub mod Words
pub mod Formats
pub mod Trampoline
pub mod Return
pub mod Installed
pub mod Protected
pub mod Tests
use vpoline.Common.{
  ℕ, ◌+◌, ◌-◌, ◌*◌, ◌/◌, ◌%◌, ◌^◌, bit_and, bit_or, ltb, ◌==◌, if◌then◌else◌, u32, ◌<<<◌, ◌>>>◌,
  List, [], ◌∷◌, Bool, true, false,
}
use vpoline.Common.Exit.{Exit, ok, exit}
use vpoline.Memory.{Memory, store_words}
use vpoline.Layout.{ReturnSequenceInfo, ret_sequence_size}

-- The fields of the instructions `lui` and `addi` that together load a 32-bit value.
pub record Fields : Type 0 where
  pub lui_imm_field : ℕ
  pub addi_imm_field : ℕ

-- The two fields for `v`, in `uint32_t` arithmetic; `addi` sign-extends its field.
unfoldable pub imm_fields : ℕ → Fields
imm_fields v =
    let lui_imm : ℕ = bit_and v 0xffff_f000 in
    let addi_imm : ℕ = u32 (v + 2 ^ 32 - lui_imm) in
    if (v % 4096) == 0
    then record { lui_imm_field = lui_imm; addi_imm_field = 0 }
    else if ltb 2047 addi_imm
    then record {
      lui_imm_field = u32 (lui_imm + 4096);
      addi_imm_field = u32 (2 ^ 32 - u32 (4096 + 2 ^ 32 - addi_imm));
    }
    else record { lui_imm_field = lui_imm; addi_imm_field = addi_imm }

-- The words of the trampoline to `dst`.
unfoldable pub trampoline : (dst : ℕ) → List ℕ
trampoline dst =
    let upper_32 : ℕ = bit_and dst 0xffff_ffff_0000_0000 >>> 32 in
    let lower_32 : ℕ = u32 dst in
    let upper : Fields = imm_fields upper_32 in
    let lower : Fields = imm_fields lower_32 in
    0xed01_0113
    ∷ 0x0051_3023
    ∷ 0x0061_3423
    ∷ 0x0071_3823
    ∷ 0x01c1_3c23
    ∷ bit_or 0x0000_02b7 upper.lui_imm_field
    ∷ bit_or 0x0002_8293 (u32 (upper.addi_imm_field <<< 20))
    ∷ 0x0202_9293
    ∷ bit_or 0x0000_0e37 lower.lui_imm_field
    ∷ bit_or 0x000e_0e13 (u32 (lower.addi_imm_field <<< 20))
    ∷ 0x7fff_f337
    ∷ 0x7ff0_6393
    ∷ 0x0013_9393
    ∷ 0x0013_e393
    ∷ 0x0073_6333
    ∷ 0x0013_1313
    ∷ 0x0013_6313
    ∷ 0x006e_7e33
    ∷ 0x01c2_e2b3
    ∷ 0x0002_8067
    ∷ []

-- `setup_shadow_page_trampoline`; `asm_syscall_hook` is the address of that symbol.
unfoldable pub setup_shadow_page_trampoline :
    (asm_syscall_hook : ℕ) → ReturnSequenceInfo → Memory → Memory
setup_shadow_page_trampoline asm_syscall_hook rsi mem =
    store_words mem rsi.relocated_gp (trampoline asm_syscall_hook)

-- The words of the three return paths: handled calls, forwarded calls, and clone.
abbrev pub return_sequence : List ℕ
return_sequence =
    0x1201_3183 ∷ 0x0001_3283 ∷ 0x1301_0113 ∷ 0x0280_006f ∷ 0x0000_0073 ∷ 0x1201_3183 ∷ 0x0001_3283
    ∷ 0x1301_0113 ∷ 0x0140_006f ∷ 0x1201_3183 ∷ 0x0001_3283 ∷ 0x1301_0113 ∷ 0x0000_0073
    ∷ 0x0001_81e7 ∷ []

-- The request for execute-only protection: an address and a length.
pub record Protection : Type 0 where
  pub addr : ℕ
  pub len : ℕ

-- What `setup_return` leaves: the memory, and the pages that it asked to protect.
pub record Written : Type 0 where
  pub mem : Memory
  pub protection : Protection

-- SIGABRT of a failed `assert`, as a status.
abbrev aborted : ℕ
aborted = 134

-- `setup_return`; `mprotect` says whether a request is granted.
unfoldable pub setup_return :
    (mprotect : Protection → Bool) (page_size : ℕ) → ReturnSequenceInfo → Memory → Exit Written
setup_return mprotect page_size rsi mem =
    let mem' : Memory = store_words mem rsi.start_addr return_sequence in
    let request : Protection = record {
      addr = rsi.ret_sequence_page_addr;
      len = ret_sequence_size + rsi.start_offset;
    } in
    if (rsi.ret_sequence_page_addr % page_size) == 0
    then (if mprotect request then ok (record { mem = mem'; protection = request }) else exit 1)
    else exit aborted
