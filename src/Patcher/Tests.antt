-- ===== src/Patcher/Tests.antt =====
-- The written code at concrete addresses, and the theorems of the patcher at them.
use vpoline.Common.{ℕ, ◌+◌, ◌^◌, ◌≤◌, ◌<◌, ◌≡◌, refl, arith, true, some, []}
use vpoline.Common.Exit.{ok}
use vpoline.Memory.{Memory, load, store, store_words}
use vpoline.Memory.Laws.{IsBytes, store-IsBytes}
use vpoline.Layout.{ReturnSequenceInfo}
use vpoline.Machine.{State, Kernel, run, go}
use vpoline.Patcher.{
  trampoline, return_sequence, setup_return, setup_shadow_page_trampoline, Written,
}
use vpoline.Patcher.Words.{Holds, Holds-store_words}
use vpoline.Patcher.Trampoline.{Enters, trampoline-Enters}
use vpoline.Patcher.Return.{
  unwind, syscall, leave, run-handled_path, run-forwarded_path, run-clone_path,
}
use vpoline.Patcher.Installed.{Installed, setup_return-Installed}
use vpoline.Patcher.Protected.{setup_return-covers}
use vpoline.Layout.Tests.{placed, is_placed}

abbrev empty : Memory
empty _ = 0

-- An address whose lower half needs a rounded upper part.
abbrev hook_entry : ℕ
hook_entry = 0x7f12_9abc_d800

abbrev rsi : ReturnSequenceInfo
rsi = record {
  start_addr = 0x50_07c8;
  end_addr = 0x50_07ff;
  start_addr_page = 0x1_2000;
  end_addr_page = 0x1_2000;
  gp_offset = 0x800;
  relocated_gp = 0x50_0800;
  start_offset = 0x7c8;
  protection_size = 0x1000;
  ret_sequence_page_addr = 0x50_0000;
}

setup_return-Installed_example :
    (w : Written) × (setup_return
        (λ request. true)
        0x1000
        rsi
        (setup_shadow_page_trampoline hook_entry rsi empty)
      ≡ ok w)
    × Installed hook_entry rsi empty w
setup_return-Installed_example =
    setup_return-Installed (λ request. true) 0x1000 hook_entry rsi empty refl refl refl

-- A kernel that answers with the sum of the number and the first argument, and writes nothing.
abbrev pub kernel : Kernel
kernel = record { result = λ regs mem. regs 17 + regs 10; memory = λ regs mem. mem }

-- The processor reads the words that the patcher stores.
abbrev fetch_trampoline : ℕ → ℕ
fetch_trampoline = load 4 (store_words empty 0x50_0800 (trampoline hook_entry))

abbrev start : State
start = record { pc = 0x50_0800; regs = λ r. 0x1_0000 + r; mem = empty; calls = [] }

trampoline-Enters_example :
    (t : State) × (run kernel fetch_trampoline 20 start ≡ some t) × Enters hook_entry start t
trampoline-Enters_example =
    trampoline-Enters kernel fetch_trampoline hook_entry start (omega arith) refl (omega arith)
      (Holds-store_words (trampoline hook_entry) empty 0x50_0800)

abbrev fetch_return : ℕ → ℕ
fetch_return = load 4 (store_words empty 0x50_07c8 return_sequence)

held : Holds fetch_return 0x50_07c8 return_sequence
held = Holds-store_words return_sequence empty 0x50_07c8

-- A frame at 0x10002, with a return address.
abbrev framed : State
framed = record {
  pc = 0;
  regs = λ r. 0x1_0000 + r;
  mem = store 8 empty 0x1_0122 0x1_2344;
  calls = [];
}

framed-IsBytes : IsBytes framed.mem
framed-IsBytes = store-IsBytes 8 empty 0x1_0122 0x1_2344 (λ x. omega arith)

run-handled_path_example :
    run kernel fetch_return 5 (go 0x50_07c8 framed) ≡ some (leave (0x50_07c8 + 56) (unwind framed))
run-handled_path_example =
    run-handled_path kernel fetch_return 0x50_07c8 (omega arith) held framed framed-IsBytes

run-forwarded_path_example :
    run kernel fetch_return 6 (go (0x50_07c8 + 16) framed)
    ≡ some (leave (0x50_07c8 + 56) (unwind (syscall kernel framed)))
run-forwarded_path_example =
    run-forwarded_path kernel fetch_return 0x50_07c8 (omega arith) held framed framed-IsBytes

run-clone_path_example :
    run kernel fetch_return 5 (go (0x50_07c8 + 36) framed)
    ≡ some (leave (0x50_07c8 + 56) (syscall kernel (unwind framed)))
run-clone_path_example =
    run-clone_path kernel fetch_return 0x50_07c8 (omega arith) held framed framed-IsBytes

-- The page and the pointer of the tests of the layout.
abbrev protected : Written
protected = record {
  mem = store_words empty 0x7f00_0000_07c8 return_sequence;
  protection = record { addr = 0x7f00_0000_0000; len = 0x800 };
}

protected_run : setup_return (λ request. true) placed.page_size placed.rsi empty ≡ ok protected
unfolding setup_return
protected_run = refl

setup_return-covers_example :
    (protected.protection.addr ≡ 0x7f00_0000_0000)
    × (0x7f00_0000_0000 + 4096 < 0x7f00_0000_0000 + 0x800 + 2 ^ 12)
    × (0x7f00_0000_0000 + 0x800 ≤ 0x7f00_0000_0000 + 4096)
setup_return-covers_example =
    setup_return-covers is_placed (omega arith) (λ request. true) empty protected protected_run
