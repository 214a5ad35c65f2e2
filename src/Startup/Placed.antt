-- ===== src/Startup/Placed.antt =====
-- `__vpoline_init` up to the new value of gp.
use vpoline.Common.{ℕ, ◌+◌, ◌%◌, ◌^◌, ◌≡◌, refl, arith, true, ◌==◌, Option, some, if◌then◌else◌}
use vpoline.Common.Exit.{ok}
use vpoline.Memory.{Memory}
use vpoline.Layout.{Globals, allocate_ret_sequence_page, define_ret_sequence_info}
use vpoline.Layout.Fields.{defined, protection_size-cases}
use vpoline.Layout.Placement.{IsPlaced, placed_fields}
use vpoline.Patcher.{Written, setup_return, setup_shadow_page_trampoline}
use vpoline.Patcher.Installed.{Installed, setup_return-Installed}
use vpoline.Rewrite.{Mprotect}
use vpoline.Startup.{
  with_gp, with_variable, Sigaction, sigsegv, handler_flags, Signals, System, Symbols, Process,
  init_trap_handler, execute_only, install,
}

-- The handlers with that of SIGSEGV.
abbrev pub with_handler : Symbols → Signals → Signals
with_handler sym signals signal =
    if signal == sigsegv
    then some (record { sa_flags = handler_flags; sa_sigaction = sym.segfault_handler })
    else signals signal

-- The process behind the first part of the set-up.
abbrev pub prepared : Symbols → Process → Globals → Memory → Process
prepared sym p g' mem = record {
  gp = g'.rsi.relocated_gp;
  globals = g';
  hook_fn = p.hook_fn;
  signals = with_handler sym p.signals;
  memory = mem;
}

pub allocate_page_size :
    (mmap : ℕ → Option ℕ) (d g' : Globals)
    → allocate_ret_sequence_page mmap d ≡ ok g'
    → g'.page_size ≡ d.page_size
unfolding allocate_ret_sequence_page
allocate_page_size mmap d g' e = ground arith

-- A system that grants what the set-up asks for, with pages of `2 ^ k` bytes.
pub record IsGranting (k : ℕ) (sys : System) : Type 0 where
  pub page_size : sys.sysconf ≡ 2 ^ k
  pub granted : (request : Mprotect) → sys.mprotect request ≡ true
  pub accepted : (signal : ℕ) (sa : Sigaction) → sys.sigaction signal sa ≡ true

module _ (sys : System) (sym : Symbols) (p : Process) where
  install_steps :
      (k : ℕ) (g' : Globals) (w : Written)
      → IsGranting k sys
      → allocate_ret_sequence_page sys.mmap (defined k (with_gp p)) ≡ ok g'
      → setup_return
          (execute_only sys)
          g'.page_size
          g'.rsi
          (setup_shadow_page_trampoline sym.asm_syscall_hook g'.rsi (with_variable sym g' p.memory))
        ≡ ok w
      → install sys sym p ≡ ok (prepared sym p g' w.mem)
  unfolding install init_trap_handler
  install_steps k g' w is e e' =
      let accepted =
        is.accepted sigsegv
          (record { sa_flags = handler_flags; sa_sigaction = sym.segfault_handler }) in
      rw (is.page_size, accepted, e, e') refl

  module _ (k page : ℕ) (g' : Globals) (is : IsGranting k sys)
      (placed : IsPlaced k (with_gp p) sys.mmap page g') where
    aligned : (g'.rsi.ret_sequence_page_addr % g'.page_size == 0) ≡ true
    unfolding define_ret_sequence_info
    aligned =
        let (_, _, _, _, here) = placed_fields placed in
        let size : g'.page_size ≡ 2 ^ k =
          allocate_page_size sys.mmap (defined k (with_gp p)) g' placed.result in
        let zero_rest : page % 2 ^ k ≡ 0 = placed.mapping.aligned in rw (here, size, zero_rest) refl

    pub gp_place : g'.rsi.relocated_gp ≡ g'.rsi.start_addr + 56
    gp_place =
        let size = protection_size-cases k (with_gp p) placed.system in
        grind (arith, placed_fields placed, size, placed.mapping, placed.system)

    pub install-Installed :
        (w : Written) × (install sys sym p ≡ ok (prepared sym p g' w.mem))
        × Installed sym.asm_syscall_hook g'.rsi (with_variable sym g' p.memory) w
    install-Installed =
        let (w, e, i) =
          setup_return-Installed (execute_only sys) g'.page_size sym.asm_syscall_hook g'.rsi
            (with_variable sym g' p.memory) aligned (is.granted _) gp_place in
        (w, install_steps k g' w is placed.result e, i)
