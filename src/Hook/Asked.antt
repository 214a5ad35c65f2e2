-- ===== src/Hook/Asked.antt =====
-- src/main.c: what `syscall_hook` makes of the answer of a hook function.
use vpoline.Common.{ℕ, ◌≡◌, ◌≢◌, refl, ◌==◌, false, Option, none, some, ◌⊎◌, inl, inr, ==_ne}
use vpoline.Hook.Callee.{HookFn, Hooked, WrapperRet, syscall_hook}

-- The hook function, asked with the number in a7 and the arguments in a0 to a5.
abbrev pub asked : HookFn → (ℕ → ℕ) → Hooked
asked hook regs = hook (regs 17) (regs 10) (regs 11) (regs 12) (regs 13) (regs 14) (regs 15)

-- No hook function is set, or its return value is not 0.
abbrev pub Forwards : Option HookFn → (ℕ → ℕ) → Type 0
Forwards hook_fn regs =
    (hook_fn ≡ none) ⊎ ((hook : HookFn) × (hook_fn ≡ some hook) × ((asked hook regs).ret ≢ 0))

abbrev answer : Option HookFn → (regs : ℕ → ℕ) → (a6_ra : ℕ) → WrapperRet
answer hook_fn regs a6_ra =
    syscall_hook hook_fn (regs 10) (regs 11) (regs 12) (regs 13) (regs 14) (regs 15) a6_ra (regs 17)

pub syscall_hook-asked :
    (hook : HookFn) (regs : ℕ → ℕ) (a6_ra : ℕ)
    → (asked hook regs).ret ≡ 0
    → ((answer (some hook) regs a6_ra).handled ≡ 1)
      × ((answer (some hook) regs a6_ra).value ≡ (asked hook regs).result)
unfolding syscall_hook
syscall_hook-asked hook regs a6_ra e = rw e (refl, refl)

pub syscall_hook-Forwards :
    (hook_fn : Option HookFn) (regs : ℕ → ℕ) (a6_ra : ℕ)
    → Forwards hook_fn regs
    → (answer hook_fn regs a6_ra).handled ≡ 0
unfolding syscall_hook
syscall_hook-Forwards hook_fn regs a6_ra (inl e) = rw e refl
syscall_hook-Forwards hook_fn regs a6_ra (inr (hook, e, n)) =
    let forwards : ((asked hook regs).ret == 0) ≡ false = ==_ne _ 0 n in rw (e, forwards) refl
