-- ===== src/Rewrite.antt =====
-- src/main.c: the search for `ecall` in a range of code, and its replacement. Capstone and
-- `mprotect` are arguments.
pub mod Sweep
pub mod Patched
pub mod Unique
pub mod Moments
pub mod Between
pub mod Status
pub mod Tests
use vpoline.Common.{
  ℕ, zero, suc, ◌+◌, leb, ◌==◌, if◌then◌else◌, Bool, true, false, List, [], ◌∷◌, Option, none, some,
  u64, sub64, not, ◌&&◌,
}
use vpoline.Common.Exit.{Exit, ok, exit}
use vpoline.Memory.{Memory, store}

-- What the code reads of a `cs_insn`: its size, and whether its id is RISCV_INS_ECALL.
pub record CsInsn : Type 0 where
  pub size : ℕ
  pub is_ecall : Bool

-- The calls of capstone: whether each call of the set-up succeeds, and what `cs_disasm_iter` finds
-- in the memory at an address, with a number of bytes that may be read.
pub record Capstone : Type 0 where
  pub cs_open : Bool
  pub cs_option_detail : Bool
  pub cs_option_mem : Bool
  pub cs_malloc : Bool
  pub cs_disasm_iter : Memory → (address size : ℕ) → Option CsInsn

-- `struct intercept_disasm_context`, without the handles.
pub record InterceptDisasmContext : Type 0 where
  pub begin_address : ℕ
  pub end_address : ℕ

-- `struct intercept_disasm_result`.
pub record InterceptDisasmResult : Type 0 where
  pub address : ℕ
  pub is_syscall : Bool
  pub length : ℕ

-- EXIT_FAILURE.
abbrev pub exit_failure : ℕ
exit_failure = 1

-- `intercept_disasm_init`.
unfoldable pub intercept_disasm_init :
    Capstone → (begin_address end_address : ℕ) → Exit InterceptDisasmContext
intercept_disasm_init cs begin_address end_address =
    if cs.cs_open && cs.cs_option_detail && cs.cs_option_mem && cs.cs_malloc
    then ok (record { begin_address = begin_address; end_address = end_address })
    else exit exit_failure

-- `intercept_disasm_next_instruction`.
unfoldable pub intercept_disasm_next_instruction :
    Capstone → InterceptDisasmContext → Memory → (code : ℕ) → Exit InterceptDisasmResult
intercept_disasm_next_instruction cs context mem code =
    elim (cs.cs_disasm_iter mem code (u64 (sub64 context.end_address code + 1))) [
      | none ↦ ok (record { address = code; is_syscall = false; length = 0 })
      | some insn ↦
          if insn.size == 0
          then exit exit_failure
          else ok (record { address = code; is_syscall = insn.is_ecall; length = insn.size })
    ]

-- `jalr gp, gp, 0`.
abbrev pub jalr_gp : ℕ
jalr_gp = 0x0001_81e7

-- The body of the loop, from the result for `code`: the next address and the memory.
abbrev pub rewrite_instruction : (code : ℕ) → Memory → InterceptDisasmResult → ℕ × Memory
rewrite_instruction code mem result = if result.length == 0 then (u64 (code + 1), mem) else (
  u64 (code + result.length),
  if result.is_syscall then store 4 mem result.address jalr_gp else mem,
)

-- The loop `while (code <= end)`; `none` when the fuel is used up.
unfoldable pub rewrite_loop :
    Capstone → InterceptDisasmContext → (fuel code : ℕ) → Memory → Option (Exit Memory)
rewrite_loop cs context zero code mem = elim (leb code context.end_address) [
  | true ↦ none
  | false ↦ some (ok mem)
]
rewrite_loop cs context (suc fuel) code mem = elim (leb code context.end_address) [
  | true ↦ elim (intercept_disasm_next_instruction cs context mem code) [
    | exit status ↦ some (exit status)
    | ok result ↦
        let next = rewrite_instruction code mem result in rewrite_loop cs context fuel next.0 next.1
  ]
  | false ↦ some (ok mem)
]

-- The arguments of a call of `mprotect`.
pub record Mprotect : Type 0 where
  pub addr : ℕ
  pub len : ℕ
  pub prot : ℕ

-- PROT_WRITE | PROT_READ | PROT_EXEC.
abbrev pub prot_all : ℕ
prot_all = 7

abbrev after_loop : Bool → Exit Memory → Exit Memory
after_loop granted (exit status) = exit status
after_loop granted (ok mem) = if granted then ok mem else exit exit_failure

-- `disassemble_and_rewrite`; `mprotect` says whether a request is granted.
unfoldable pub disassemble_and_rewrite :
    Capstone
    → (mprotect : Mprotect → Bool) (code code_size mem_prot : ℕ) → Memory
    → Option (Exit Memory)
disassemble_and_rewrite cs mprotect code code_size mem_prot mem =
    if mprotect (record { addr = code; len = code_size; prot = prot_all })
    then elim (intercept_disasm_init cs code (sub64 (u64 (code + code_size)) 1)) [
      | exit status ↦ some (exit status)
      | ok context ↦ elim (rewrite_loop cs context code_size code mem) [
        | none ↦ none
        | some result ↦ some (
            after_loop (mprotect (record { addr = code; len = code_size; prot = mem_prot })) result)
      ]
    ]
    else some (exit exit_failure)
