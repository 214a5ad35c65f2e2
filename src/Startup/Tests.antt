-- ===== src/Startup/Tests.antt =====
-- A start of a process with a small libc and a hook library.
use vpoline.Common.{◌≡◌, refl, arith, true, some, none, inl, inr, ◌⊎◌, All}
use vpoline.Common.Exit.{ok, exit}
use vpoline.Layout.{Globals, define_ret_sequence_info, allocate_ret_sequence_page}
use vpoline.Layout.Placement.{IsPlaced}
use vpoline.Layout.Tests.{globals}
use vpoline.Text.{codes}
use vpoline.Rewrite.Tests.{capstone, capstone-IsCapstone}
use vpoline.Maps.Print.{print_file}
use vpoline.Maps.Patched.{Sorted}
use vpoline.Maps.Tests.{mappings, mappings-IsMapping, libc}
use vpoline.Startup.{with_gp, System, Symbols, Process, vpoline_init}
use vpoline.Startup.Placed.{IsGranting}
use vpoline.Startup.Library.{IsLibrary}
use vpoline.Startup.Kept.{IsApart}
use vpoline.Startup.SetUp.{SetUp}
use vpoline.Startup.Requests.{IsGranted, IsFound, vpoline_init-requests}
use vpoline.Startup.Started.{IsCode, Started, vpoline_init-Started}

abbrev pub system : System
system = record {
  sysconf = 4096;
  mmap = λ size. some 0x50_0000;
  mprotect = λ request. true;
  sigaction = λ signal sa. true;
  maps = some (print_file mappings);
  capstone = capstone;
  getenv = λ name. some (codes "./libhook.so");
  dlopen = λ filename mem. (some 1, mem);
  dlsym = λ handle symbol. some 0x9000;
  hook_init = λ function n syscall_no_intercept user_hook_ptr mem. record {
    init_state = 0;
    user_hook_ptr = 0x9100;
    memory = mem;
  };
}

abbrev pub symbols : Symbols
symbols = record {
  segfault_handler = 0x8000;
  asm_syscall_hook = 0x7f12_9abc_d800;
  syscall_no_intercept = 0x8200;
  relocated_global_pointer = 0x2000;
}

abbrev pub process : Process
process = record {
  gp = 0x1_2800;
  globals = globals 0;
  hook_fn = 0;
  signals = λ signal. none;
  memory = libc;
}

abbrev pub placed : Globals
placed = record {
  virtual_global_pointer = 0x1_2800;
  relocated_global_pointer = 0x50_0800;
  page_size = 4096;
  rsi = record {
    start_addr = 0x50_07c8;
    end_addr = 0x50_07ff;
    start_addr_page = 0x1_2000;
    end_addr_page = 0x1_2000;
    gp_offset = 0x800;
    relocated_gp = 0x50_0800;
    start_offset = 0x7c8;
    protection_size = 4096;
    ret_sequence_page_addr = 0x50_0000;
  };
}

pub is_placed : IsPlaced 12 (with_gp process) system.mmap 0x50_0000 placed
unfolding define_ret_sequence_info allocate_ret_sequence_page
is_placed = record { system = omega arith; mapping = omega arith; found = refl; result = refl }

pub granting : IsGranting 12 system
granting = record { page_size = refl; granted = λ request. refl; accepted = λ signal sa. refl }

library : IsLibrary system symbols (IsCode 0x2000 0x50_0000 4096 mappings) 0x9100
library = record {
  filename = codes "./libhook.so";
  handle = 1;
  function = 0x9000;
  named = refl;
  opened = λ mem. refl;
  found = refl;
  succeeds = λ mem. refl;
  stored = λ mem. refl;
  open_keeps = λ mem x code. refl;
  init_keeps = λ mem x code. refl;
}

pub sorted : Sorted mappings
sorted = ((omega arith, (omega arith, tt)), ((omega arith, tt), (tt, tt)))

pub apart : All (IsApart 0x2000 0x50_0000 4096) mappings
apart = (
  (λ target. (inl (omega arith), inl (omega arith))),
  (
    (λ target. (inl (omega arith), inr (omega arith))),
    ((λ target. (inl (omega arith), inr (omega arith))), tt),
  ),
)

pub set_up : SetUp system symbols process 12 0x50_0000 placed mappings 0x9100
set_up = record {
  granting = granting;
  placed = is_placed;
  lower = omega arith;
  upper = omega arith;
  capstone = capstone-IsCapstone;
  ready = refl;
  file = refl;
  lines = mappings-IsMapping;
  sorted = sorted;
  apart = apart;
  other = inl (omega arith);
  library = library;
}

vpoline_init-Started_example :
    (q : Process) × (vpoline_init system symbols process ≡ some (ok q))
    × Started system symbols 0x50_0000 0x800 0x9100 placed mappings libc q
vpoline_init-Started_example =
    vpoline_init-Started system symbols process 12 0x50_0000 placed granting is_placed (omega arith)
      (omega arith) capstone-IsCapstone refl mappings refl mappings-IsMapping sorted apart
      (inl (omega arith)) 0x9100 library

found : IsFound system symbols 0
found = record {
  filename = codes "./libhook.so";
  handle = 1;
  function = 0x9000;
  named = refl;
  opened = λ mem. refl;
  found = refl;
  returned = λ mem. refl;
}

vpoline_init-requests_example :
    (IsGranted system symbols placed mappings 0
      × ((q : Process) × (vpoline_init system symbols process ≡ some (ok q))))
    ⊎ (¬ IsGranted system symbols placed mappings 0
        × (vpoline_init system symbols process ≡ some (exit 1)))
vpoline_init-requests_example =
    vpoline_init-requests system symbols process 12 0x50_0000 placed refl is_placed
      capstone-IsCapstone refl mappings refl mappings-IsMapping 0 found
