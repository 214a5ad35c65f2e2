-- ===== src/Startup/Library.antt =====
-- `load_hook_lib` with a hook library that loads.
use vpoline.Common.{ℕ, ◌≡◌, refl, some, ◌∙◌}
use vpoline.Common.Exit.{ok}
use vpoline.Memory.{Memory}
use vpoline.Text.{Bytes, codes}
use vpoline.Startup.{System, Symbols, Process, call_hook_init, find_hook_init, load_hook_lib}

-- A hook library that LIBVPHOOK names, that the loader finds with its `__hook_init`, and whose
-- initialisation succeeds with a pointer; neither changes the bytes of `Code`.
pub record IsLibrary (sys : System) (sym : Symbols) (Code : ℕ → Type 0) (hook : ℕ) : Type 0 where
  pub filename : Bytes
  pub handle : ℕ
  pub function : ℕ
  pub named : sys.getenv (codes "LIBVPHOOK") ≡ some filename
  pub opened : (mem : Memory) → (sys.dlopen filename mem).0 ≡ some handle
  pub found : sys.dlsym handle (codes "__hook_init") ≡ some function
  pub succeeds :
      (mem : Memory) → (sys.hook_init function 0 sym.syscall_no_intercept 0 mem).init_state ≡ 0
  pub stored :
      (mem : Memory)
      → (sys.hook_init function 0 sym.syscall_no_intercept 0 mem).user_hook_ptr ≡ hook
  pub open_keeps : (mem : Memory) (x : ℕ) → Code x → (sys.dlopen filename mem).1 x ≡ mem x
  pub init_keeps :
      (mem : Memory) (x : ℕ)
      → Code x
      → (sys.hook_init function 0 sym.syscall_no_intercept 0 mem).memory x ≡ mem x

pub load_hook_lib-IsLibrary :
    (sys : System) (symbols : Symbols) (Code : ℕ → Type 0) (hook : ℕ)
    → IsLibrary sys symbols Code hook
    → (p : Process)
    → (mem : Memory) × (load_hook_lib sys symbols p
        ≡ ok (record p { hook_fn = hook; memory = mem }))
      × ((x : ℕ) → Code x → mem x ≡ p.memory x)
unfolding load_hook_lib find_hook_init call_hook_init
load_hook_lib-IsLibrary sys symbols Code hook l p =
    let mem1 : Memory = (sys.dlopen l.filename p.memory).1 in
    (
      (sys.hook_init l.function 0 symbols.syscall_no_intercept 0 mem1).memory,
      rw
          (
            load_hook_lib,
            l.named,
            l.opened p.memory,
            find_hook_init,
            l.found,
            call_hook_init,
            l.succeeds mem1,
            l.stored mem1,
          )
          refl,
      λ x c. l.init_keeps mem1 x c ∙ l.open_keeps p.memory x c,
    )
