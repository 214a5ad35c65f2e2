-- ===== src/Hook/Callee.antt =====
-- src/main.c, src/main.h: `syscall_hook`, which the assembly calls.
use vpoline.Common.{
  arith, ℕ, ◌==◌, if◌then◌else◌, Option, none, some, not, Bool, true, false, ◌≡◌, refl, ◌⊎◌, inl,
  inr,
}

-- What a hook function gives: its return value, and what it left in `*result`.
pub record Hooked : Type 0 where
  pub ret : ℕ
  pub result : ℕ

-- `hook_fn_t`: a function of the number of the system call and its six arguments, as it answers
-- one call; another call may have another function.
abbrev pub HookFn : Type 0
HookFn = (syscall_number a0 a1 a2 a3 a4 a5 : ℕ) → Hooked

-- `struct wrapper_ret`.
pub record WrapperRet : Type 0 where
  pub value : ℕ
  pub handled : ℕ

-- `syscall_hook`; `hook_fn` is `none` when it is NULL.
unfoldable pub syscall_hook : Option HookFn → (a0 a1 a2 a3 a4 a5 a6_ra a7 : ℕ) → WrapperRet
syscall_hook none a0 a1 a2 a3 a4 a5 a6_ra a7 = record { value = a0; handled = 0 }
syscall_hook (some hook_fn) a0 a1 a2 a3 a4 a5 a6_ra a7 =
    let hooked = hook_fn a7 a0 a1 a2 a3 a4 a5 in
    let forward_to_kernel = not (hooked.ret == 0) in
    if forward_to_kernel
    then record { value = a0; handled = 0 }
    else record { value = hooked.result; handled = 1 }

decided : Bool → ℕ → ℕ → WrapperRet
decided forward a0 result =
    if forward then record { value = a0; handled = 0 } else record { value = result; handled = 1 }

decided_cases :
    (b : Bool) (a0 result : ℕ)
    → ((decided b a0 result).handled ≡ 0) ⊎ ((decided b a0 result).handled ≡ 1)
unfolding decided
decided_cases true a0 result = inl refl
decided_cases false a0 result = inr refl

-- The second result is a flag.
pub syscall_hook-handled :
    (hook_fn : Option HookFn) (a0 a1 a2 a3 a4 a5 a6_ra a7 : ℕ)
    → let w : WrapperRet = syscall_hook hook_fn a0 a1 a2 a3 a4 a5 a6_ra a7 in
      (w.handled ≡ 0) ⊎ (w.handled ≡ 1)
unfolding syscall_hook decided
syscall_hook-handled none a0 a1 a2 a3 a4 a5 a6_ra a7 = inl refl
syscall_hook-handled (some hook_fn) a0 a1 a2 a3 a4 a5 a6_ra a7 =
    let h : Hooked = hook_fn a7 a0 a1 a2 a3 a4 a5 in decided_cases (not (h.ret == 0)) a0 h.result

forwarded_value :
    (b : Bool) (a0 result : ℕ)
    → (decided b a0 result).handled ≡ 0
    → (decided b a0 result).value ≡ a0
unfolding decided
forwarded_value true a0 result e = refl
forwarded_value false a0 result e = absurd (omega (arith, e))

-- A call that is not handled keeps its first argument.
pub syscall_hook-value :
    (hook_fn : Option HookFn) (a0 a1 a2 a3 a4 a5 a6_ra a7 : ℕ)
    → let w : WrapperRet = syscall_hook hook_fn a0 a1 a2 a3 a4 a5 a6_ra a7 in
      w.handled ≡ 0 → w.value ≡ a0
unfolding syscall_hook decided
syscall_hook-value none a0 a1 a2 a3 a4 a5 a6_ra a7 e = refl
syscall_hook-value (some hook_fn) a0 a1 a2 a3 a4 a5 a6_ra a7 e =
    let h : Hooked = hook_fn a7 a0 a1 a2 a3 a4 a5 in
    forwarded_value (not (h.ret == 0)) a0 h.result e
