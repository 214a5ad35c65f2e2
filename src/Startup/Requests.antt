-- ===== src/Startup/Requests.antt =====
-- What `__vpoline_init` asks the system for, and what becomes of it when a request is refused.
use vpoline.Common.{
  ℕ, ◌+◌, ◌%◌, ◌^◌, ◌≡◌, refl, arith, true, ◌==◌, ◌&&◌, List, some, inl, inr, ◌⊎◌, ==_iff, All,
  Bool-cases,
}
use vpoline.Common.Exit.{ok, exit}
use vpoline.Memory.{Memory, store_words}
use vpoline.Text.{Bytes, codes}
use vpoline.Layout.{Globals, define_ret_sequence_info}
use vpoline.Layout.Fields.{defined}
use vpoline.Layout.Placement.{IsPlaced, placed_fields}
use vpoline.Patcher.{return_sequence, setup_return, setup_shadow_page_trampoline}
use vpoline.Rewrite.Sweep.{IsCapstone}
use vpoline.Maps.{rewrite_code}
use vpoline.Maps.Print.{Mapping, IsMapping, print_file}
use vpoline.Maps.Requests.{IsOpen, rewrite_code-requests}
use vpoline.Startup.{
  with_gp, with_variable, sigsegv, handler_flags, System, Symbols, Process, init_trap_handler,
  install, call_hook_init, find_hook_init, load_hook_lib, vpoline_init,
}
use vpoline.Startup.Placed.{prepared, allocate_page_size}

-- A hook library that LIBVPHOOK names and that the loader finds with its `__hook_init`, which returns
-- the value `state`.
pub record IsFound (sys : System) (symbols : Symbols) (state : ℕ) : Type 0 where
  pub filename : Bytes
  pub handle : ℕ
  pub function : ℕ
  pub named : sys.getenv (codes "LIBVPHOOK") ≡ some filename
  pub opened : (mem : Memory) → (sys.dlopen filename mem).0 ≡ some handle
  pub found : sys.dlsym handle (codes "__hook_init") ≡ some function
  pub returned :
      (mem : Memory)
      → (sys.hook_init function 0 symbols.syscall_no_intercept 0 mem).init_state ≡ state

-- The handler is registered, and the execute-only protection of the new mapping granted.
abbrev pub IsInstalled : System → Symbols → Globals → Type 0
IsInstalled sys symbols g' =
    (sys.sigaction sigsegv
        (record { sa_flags = handler_flags; sa_sigaction = symbols.segfault_handler })
      ≡ true)
    × (sys.mprotect (record {
      addr = g'.rsi.ret_sequence_page_addr;
      len = 56 + g'.rsi.start_offset;
      prot = 4;
    })
        ≡ true)

module _ (sys : System) (symbols : Symbols) (p : Process) (k page : ℕ) (g' : Globals)
    (size : sys.sysconf ≡ 2 ^ k) (placed : IsPlaced k (with_gp p) sys.mmap page g') where
  aligned : (g'.rsi.ret_sequence_page_addr % g'.page_size == 0) ≡ true
  unfolding define_ret_sequence_info
  aligned =
      let (_, _, _, _, here) = placed_fields placed in
      let pages : g'.page_size ≡ 2 ^ k =
        allocate_page_size sys.mmap (defined k (with_gp p)) g' placed.result in
      let zero_rest : page % 2 ^ k ≡ 0 = placed.mapping.aligned in rw (here, pages, zero_rest) refl

  install_cases :
      (IsInstalled sys symbols g'
        × ((mem : Memory) × (install sys symbols p ≡ ok (prepared symbols p g' mem))))
      ⊎ (¬ IsInstalled sys symbols g' × (install sys symbols p ≡ exit 1))
  unfolding install init_trap_handler setup_return
  install_cases =
      let here = placed.result in
      elim (Bool-cases (
        sys.sigaction sigsegv
          (record { sa_flags = handler_flags; sa_sigaction = symbols.segfault_handler }))) [
            | inr refused ↦ inr ((λ (first, _). absurd cc), rw refused refl)
            | inl accepted ↦
                elim (Bool-cases (
                  sys.mprotect (record {
                    addr = g'.rsi.ret_sequence_page_addr;
                    len = 56 + g'.rsi.start_offset;
                    prot = 4;
                  }))) [
                    | inr refused ↦
                        inr (
                          (λ (_, last). absurd cc),
                          rw (accepted, size, here, aligned, refused) refl,
                        )
                    | inl granted ↦ inl (
                      (accepted, granted),
                      (
                        store_words
                            (setup_shadow_page_trampoline symbols.asm_syscall_hook g'.rsi
                              (with_variable symbols g' p.memory))
                            g'.rsi.start_addr return_sequence,
                        rw (accepted, size, here, aligned, granted) refl,
                      ),
                    )
                  ]
          ]

-- Everything that the set-up asks for is granted: the handler, the execute-only protection, both
-- requests for each executable range of libc; and the hook library is initialised.
abbrev pub IsGranted : System → Symbols → Globals → List Mapping → (state : ℕ) → Type 0
IsGranted sys symbols g' ms state =
    IsInstalled sys symbols g' × All (IsOpen sys.mprotect) ms × (state ≡ 0)

load_cases :
    (sys : System) (symbols : Symbols) (state : ℕ)
    → IsFound sys symbols state
    → (p : Process)
    → ((state ≡ 0) × ((q : Process) × (load_hook_lib sys symbols p ≡ ok q)))
      ⊎ (¬ (state ≡ 0) × (load_hook_lib sys symbols p ≡ exit 1))
unfolding load_hook_lib find_hook_init call_hook_init
load_cases sys symbols state l p =
    let mem : Memory = (sys.dlopen l.filename p.memory).1 in
    let init = sys.hook_init l.function 0 symbols.syscall_no_intercept 0 mem in
    let named = l.named in
    let opened = l.opened p.memory in
    let found = l.found in
    let returned = l.returned mem in
    elim (Bool-cases (state == 0)) [
      | inl zero ↦ inl (
        grind (arith, ==_iff state 0),
        (
          record p { hook_fn = init.user_hook_ptr; memory = init.memory },
          rw (load_hook_lib, named, opened, find_hook_init, found, call_hook_init, returned, zero)
              refl,
        ),
      )
      | inr other ↦ inr (
        grind (arith, ==_iff state 0),
        rw (load_hook_lib, named, opened, find_hook_init, found, call_hook_init, returned, other)
            refl,
      )
    ]

module _ (sys : System) (symbols : Symbols) (p : Process) (k page : ℕ) (g' : Globals)
    (size : sys.sysconf ≡ 2 ^ k) (placed : IsPlaced k (with_gp p) sys.mmap page g') where
  read_cases :
      IsCapstone sys.capstone
      → (sys.capstone.cs_open && sys.capstone.cs_option_detail && sys.capstone.cs_option_mem
          && sys.capstone.cs_malloc)
        ≡ true
      → (ms : List Mapping) → sys.maps ≡ some (print_file ms)
      → All IsMapping ms
      → (mem : Memory)
      → (All (IsOpen sys.mprotect) ms
          × ((mem' : Memory) × (rewrite_code sys.capstone sys.mprotect sys.maps mem
                ≡ some (ok mem'))))
        ⊎ (¬ All (IsOpen sys.mprotect) ms
            × (rewrite_code sys.capstone sys.mprotect sys.maps mem ≡ some (exit 1)))
  read_cases capstone ready ms file h mem =
      rw file (rewrite_code-requests sys.capstone capstone sys.mprotect ready ms h mem)

  -- For pages of `2 ^ k` bytes, a mapping of `mmap`, a capstone that starts and decodes only the
  -- bytes it is given, to instructions that are not empty and lie in them, with four bytes for
  -- `ecall`, lines of /proc/self/maps in the format of proc(5), each with addresses below 2^63 and
  -- at most 4000 bytes behind the permissions, and a hook library with a `__hook_init` that returns
  -- the same value in every memory: `__vpoline_init` comes back when `sigaction` accepts the
  -- handler, `mprotect` grants the execute-only protection of `56 + start_offset` bytes from the
  -- start of the mapping and both requests for each executable range of libc, and `__hook_init`
  -- returns 0, whatever becomes of any other request; when one of these fails, the process ends
  -- with status 1.
  pub vpoline_init-requests :
      IsCapstone sys.capstone
      → (sys.capstone.cs_open && sys.capstone.cs_option_detail && sys.capstone.cs_option_mem
          && sys.capstone.cs_malloc)
        ≡ true
      → (ms : List Mapping) → sys.maps ≡ some (print_file ms)
      → All IsMapping ms
      → (state : ℕ) → IsFound sys symbols state
      → (IsGranted sys symbols g' ms state
          × ((q : Process) × (vpoline_init sys symbols p ≡ some (ok q))))
        ⊎ (¬ IsGranted sys symbols g' ms state × (vpoline_init sys symbols p ≡ some (exit 1)))
  unfolding vpoline_init
  vpoline_init-requests capstone ready ms file h state found =
      elim (install_cases sys symbols p k page g' size placed) [
        | inr (refused, e) ↦ inr ((λ (first, _, _). refused first), rw e refl)
        | inl (installed, (mem, e)) ↦ elim (read_cases capstone ready ms file h mem) [
          | inr (refused, e1) ↦ inr ((λ (_, opened, _). refused opened), rw (e, e1) refl)
          | inl (opened, (mem1, e1)) ↦
              let q : Process = record (prepared symbols p g' mem) { memory = mem1 } in
              elim (load_cases sys symbols state found q) [
                | inr (failed, e2) ↦ inr ((λ (_, _, zero). failed zero), rw (e, e1, e2) refl)
                | inl (zero, (r, e2)) ↦ inl ((installed, opened, zero), (r, rw (e, e1, e2) refl))
              ]
        ]
      ]
