-- ===== src/Startup.antt =====
-- src/main.c and `init_trap_handler` of src/sigsegv_handler.c: the set-up of the process. The calls
-- of the system and of the loader are arguments.
pub mod Placed
pub mod Library
pub mod Kept
pub mod Started
pub mod SetUp
pub mod Requests
pub mod Words
pub mod Intercepted
pub mod During
pub mod Signal
pub mod Running
pub mod Target
pub mod Tests
pub mod FinishedTests
mod CallTests
pub mod DuringTests
mod RunningTests
use vpoline.Common.{ℕ, ◌==◌, if◌then◌else◌, Option, none, some, Bool}
use vpoline.Common.Exit.{Exit, ok, exit, ◌>>=◌, and_then}
use vpoline.Memory.{Memory, store, update}
use vpoline.Layout.{Globals, define_ret_sequence_info, allocate_ret_sequence_page}
use vpoline.Patcher.{Protection, setup_shadow_page_trampoline, setup_return}
use vpoline.Rewrite.{Capstone, Mprotect, exit_failure}
use vpoline.Text.{Bytes, codes}
use vpoline.Maps.{rewrite_code}

-- What the source sets of a `struct sigaction`; the handler by its address.
pub record Sigaction : Type 0 where
  pub sa_flags : ℕ
  pub sa_sigaction : ℕ

-- SIGSEGV, and SA_SIGINFO | SA_NODEFER.
abbrev pub sigsegv : ℕ
sigsegv = 11

abbrev pub handler_flags : ℕ
handler_flags = 0x4000_0004

-- The handlers of the signals, by number.
abbrev pub Signals : Type 0
Signals = ℕ → Option Sigaction

-- What a call of `hook_init` gives: its value, the pointer that it stored, and the memory.
pub record HookInit : Type 0 where
  pub init_state : ℕ
  pub user_hook_ptr : ℕ
  pub memory : Memory

-- The system and the loader. `maps` is what the reads of /proc/self/maps give, `none` when it is not
-- opened; `dlopen` and `hook_init` run code of the library, which may change the memory. `hook_init`
-- is the function at an address.
pub record System : Type 1 where
  pub sysconf : ℕ
  pub mmap : ℕ → Option ℕ
  pub mprotect : Mprotect → Bool
  pub sigaction : (signal : ℕ) → Sigaction → Bool
  pub maps : Option Bytes
  pub capstone : Capstone
  pub getenv : Bytes → Option Bytes
  pub dlopen : (filename : Bytes) → Memory → Option ℕ × Memory
  pub dlsym : (handle : ℕ) (symbol : Bytes) → Option ℕ
  pub hook_init : (function : ℕ) → (n syscall_no_intercept user_hook_ptr : ℕ) → Memory → HookInit

-- The addresses of the functions that the set-up passes on, and of the variable that the assembly
-- reads.
pub record Symbols : Type 0 where
  pub segfault_handler : ℕ
  pub asm_syscall_hook : ℕ
  pub syscall_no_intercept : ℕ
  pub relocated_global_pointer : ℕ

-- The process: register gp, the global variables, `hook_fn` (0 for NULL), the handlers, the memory.
pub record Process : Type 0 where
  pub gp : ℕ
  pub globals : Globals
  pub hook_fn : ℕ
  pub signals : Signals
  pub memory : Memory

-- `init_trap_handler`.
unfoldable pub init_trap_handler :
    (sigaction : (signal : ℕ) → Sigaction → Bool) (segfault_handler : ℕ) → Signals → Exit Signals
init_trap_handler sigaction segfault_handler signals =
    let sa : Sigaction = record { sa_flags = handler_flags; sa_sigaction = segfault_handler } in
    if sigaction sigsegv sa
    then ok (λ signal. if signal == sigsegv then some sa else signals signal)
    else exit 1

-- `load_hook_lib` behind `dlsym`.
unfoldable pub call_hook_init : System → Symbols → (function : ℕ) → Process → Exit Process
call_hook_init sys sym function p =
    let init = sys.hook_init function 0 sym.syscall_no_intercept 0 p.memory in
    if init.init_state == 0
    then ok (record p { hook_fn = init.user_hook_ptr; memory = init.memory })
    else exit exit_failure

-- `load_hook_lib` behind `dlopen`.
unfoldable pub find_hook_init : System → Symbols → (handle : ℕ) → Process → Exit Process
find_hook_init sys sym handle p = elim (sys.dlsym handle (codes "__hook_init")) [
  | none ↦ exit exit_failure
  | some function ↦ call_hook_init sys sym function p
]

-- `load_hook_lib`.
unfoldable pub load_hook_lib : System → Symbols → Process → Exit Process
load_hook_lib sys sym p = elim (sys.getenv (codes "LIBVPHOOK")) [
  | none ↦ ok p
  | some filename ↦
      let opened = sys.dlopen filename p.memory in
      let p' : Process = record p { memory = opened.1 } in
      elim opened.0 [ none ↦ exit 1 | some handle ↦ find_hook_init sys sym handle p' ]
]

-- `__vpoline_init` up to its first call: gp is saved in `virtual_global_pointer`.
abbrev pub with_gp : Process → Globals
with_gp p = record p.globals { virtual_global_pointer = p.gp }

-- The request of `setup_return`, with PROT_EXEC.
abbrev pub execute_only : System → Protection → Bool
execute_only sys request =
    sys.mprotect (record { addr = request.addr; len = request.len; prot = 4 })

-- The memory behind `allocate_ret_sequence_page`: the variable `relocated_global_pointer` at its
-- address, where the assembly reads it.
abbrev pub with_variable : Symbols → Globals → Memory → Memory
with_variable sym g mem = store 8 mem sym.relocated_global_pointer g.relocated_global_pointer

-- `__vpoline_init` up to the new value of gp, without the check of builds with DEBUG.
unfoldable pub install : System → Symbols → Process → Exit Process
install sys sym p =
    let defined : Globals = define_ret_sequence_info sys.sysconf (with_gp p) in
    init_trap_handler sys.sigaction sym.segfault_handler p.signals >>= λ signals.
    allocate_ret_sequence_page sys.mmap defined >>= λ g'.
    let stored = with_variable sym g' p.memory in
    let mem = setup_shadow_page_trampoline sym.asm_syscall_hook g'.rsi stored in
    setup_return (execute_only sys) g'.page_size g'.rsi mem >>= λ written. ok (record {
      gp = g'.rsi.relocated_gp;
      globals = g';
      hook_fn = p.hook_fn;
      signals = signals;
      memory = written.mem;
    })

-- `__vpoline_init`.
unfoldable pub vpoline_init : System → Symbols → Process → Option (Exit Process)
vpoline_init sys sym p = and_then (some (install sys sym p)) (λ q.
    and_then (rewrite_code sys.capstone sys.mprotect sys.maps q.memory)
      (λ mem. some (load_hook_lib sys sym (record q { memory = mem }))))

-- The arguments of `__libc_start_main`, pointers but for `argc`.
pub record StartMain : Type 0 where
  pub main_function : ℕ
  pub argc : ℕ
  pub argv : ℕ
  pub init_function : ℕ
  pub fini : ℕ
  pub rtld_fini : ℕ
  pub stack_end : ℕ

-- `__libc_start_main`; `dlsym` gives the next function of a name, and gp is set just before its
-- call.
unfoldable pub libc_start_main {ℓ} :
    {Result : Type ℓ}
    → (dlsym_next : Bytes → StartMain → Process → Result) → StartMain
    → Process
    → Result
libc_start_main dlsym_next args p =
    dlsym_next (codes "__libc_start_main") args (record p { gp = p.globals.rsi.relocated_gp })
