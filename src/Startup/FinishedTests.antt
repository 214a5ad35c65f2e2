-- ===== src/Startup/FinishedTests.antt =====
-- The processes of a start with their memory written out, and a program at the first `ecall` of libc.
use mathlib.Core.List.{Memᴰ}
use vpoline.Common.{
  ℕ, ◌^◌, ◌≤◌, ◌<◌, ◌≡◌, ◌⊎◌, refl, arith, true, [], ◌∷◌, some, ◌∙◌, inl, inr, All-Mem,
}
use vpoline.Common.Exit.{ok}
use vpoline.Memory.{Memory, load, store, store_words, update}
use vpoline.Memory.Laws.{IsBytes, store-IsBytes, store_words-IsBytes}
use vpoline.Machine.{State}
use vpoline.Layout.{define_ret_sequence_info, allocate_ret_sequence_page}
use vpoline.Patcher.{trampoline, return_sequence, setup_return, setup_shadow_page_trampoline}
use vpoline.Hook.Tests as Hook
use vpoline.Interception.Entered.{Room}
use vpoline.Interception.Site.{called}
use vpoline.Rewrite.{
  jalr_gp, disassemble_and_rewrite, rewrite_loop, intercept_disasm_init,
  intercept_disasm_next_instruction,
}
use vpoline.Rewrite.Sweep.{Sweeps}
use vpoline.Rewrite.Tests.{capstone}
use vpoline.Maps.Line.{is_target, rewrite_target}
use vpoline.Maps.File.{rewrite_targets, rewrite_code-print_file}
use vpoline.Maps.Tests.{mappings, mappings-IsMapping, libc, libc_code}
use vpoline.Startup.{
  Process, init_trap_handler, install, load_hook_lib, find_hook_init, call_hook_init, vpoline_init,
}
use vpoline.Startup.Placed.{prepared}
use vpoline.Startup.Started.{IsCode, vpoline_init_steps}
use vpoline.Startup.Words.{IsSite, IsRunning}
use vpoline.Startup.Tests.{system, symbols, process, placed}
use Sweeps.{skipped, passed, found}
use Memᴰ.{head, tail}

-- The process when `rewrite_code` begins.
abbrev pub installed : Process
installed = prepared symbols process placed (
    store_words
      (store_words (store 8 libc 0x2000 0x50_0800) 0x50_0800 (trampoline symbols.asm_syscall_hook))
      0x50_07c8 return_sequence)

pub installed_run : install system symbols process ≡ ok installed
unfolding install init_trap_handler define_ret_sequence_info allocate_ret_sequence_page setup_return
    setup_shadow_page_trampoline
installed_run = refl

abbrev pub patched : Memory
patched = store 4 (store 4 installed.memory 0x4002 jalr_gp) 0x400a jalr_gp

patched_run :
    rewrite_targets capstone (λ request. true) mappings installed.memory ≡ some (ok patched)
unfolding rewrite_targets rewrite_target is_target vpoline.Text.strstr disassemble_and_rewrite
    rewrite_loop intercept_disasm_init intercept_disasm_next_instruction load store store_words
    trampoline
patched_run = refl

abbrev pub finished : Process
finished = record installed { hook_fn = 0x9100; memory = patched }

loaded : load_hook_lib system symbols (record installed { memory = patched }) ≡ ok finished
unfolding load_hook_lib find_hook_init call_hook_init
loaded = refl

pub finished_run : vpoline_init system symbols process ≡ some (ok finished)
finished_run =
    vpoline_init_steps system symbols process installed finished patched installed_run
      (rewrite_code-print_file capstone (λ request. true) mappings mappings-IsMapping
          installed.memory
        ∙ patched_run)
      loaded

-- c.nop, ecall, a wide instruction, ecall, and two bytes that are no instruction.
libc-Sweeps : Sweeps capstone libc 0x400f 0x4000 (0x4002 ∷ 0x400a ∷ [])
unfolding load store store_words
libc-Sweeps =
    passed 0x4000 (record { size = 2; is_ecall = _ }) _ (omega arith) refl refl
      (found 0x4002 (record { size = 4; is_ecall = _ }) _ (omega arith) refl refl
        (passed 0x4006 (record { size = 4; is_ecall = _ }) _ (omega arith) refl refl
          (found 0x400a (record { size = 4; is_ecall = _ }) _ (omega arith) refl refl
            (skipped 0x400e _ (omega arith) refl
              (skipped 0x400f _ (omega arith) refl (Sweeps.finished 0x4010 (omega arith)))))))

libc_code-is_target : is_target libc_code ≡ true
unfolding is_target vpoline.Text.strstr
libc_code-is_target = refl

pub site : IsSite system mappings libc 0x4002
site = record {
  range = libc_code;
  listed = tail (tail (head refl));
  target = libc_code-is_target;
  sites = 0x4002 ∷ 0x400a ∷ [];
  swept = libc-Sweeps;
  found = head refl;
}

-- The code and the variable are apart from the stack.
abbrev pub Apart : ℕ → Type 0
Apart x = (x < 0x2008) ⊎ (((0x3000 ≤ x) × (x < 0x5000)) ⊎ (0x50_0000 ≤ x))

pub code-Apart : (x : ℕ) → IsCode 0x2000 0x50_0000 4096 mappings x → Apart x
code-Apart x (inl (inl (low, high))) = inr (inr low)
code-Apart x (inl (inr (low, high))) = inl (omega arith)
code-Apart x (inr (m, e, target, low, high)) =
    let place : (m.to_address ≤ 0x2000) ⊎ ((0x3000 ≤ m.from_address) × (m.to_address ≤ 0x5000)) =
      All-Mem (λ n. (n.to_address ≤ 0x2000) ⊎ ((0x3000 ≤ n.from_address) × (n.to_address ≤ 0x5000)))
        mappings (inl (omega arith), (inr (omega arith), (inr (omega arith), tt))) e in
    elim place [ inl under ↦ inl (omega arith) | inr between ↦ inr (inl (omega arith)) ]

pub patched-IsBytes : IsBytes patched
patched-IsBytes = store-IsBytes 4 _ _ _ (
    store-IsBytes 4 _ _ _ (
      store_words-IsBytes _ _ _ (
        store_words-IsBytes _ _ _
          (store-IsBytes 8 _ _ _ (store_words-IsBytes _ _ _ (λ x. omega arith))))))

-- The program at the first `ecall` of libc, in the memory of the process.
abbrev pub calling : ℕ → State
calling a7 = record {
  pc = 0x4002;
  regs = update (Hook.called a7).regs 3 0x50_0800;
  mem = patched;
  calls = [];
}

pub calling-IsRunning : (a7 : ℕ) → IsRunning 0x2000 0x50_0000 4096 mappings finished (calling a7)
calling-IsRunning a7 = record { global = refl; code = λ x code. refl }

pub calling-Room : (a7 : ℕ) → a7 < 2 ^ 64 → Room Hook.symbol (called (calling a7))
calling-Room a7 small = record {
  words = λ r. ground arith;
  bytes = patched-IsBytes;
  stack = omega arith;
  apart = inl (omega arith);
  small = omega arith;
  even = refl;
  enough = omega arith;
  below = omega arith;
}
