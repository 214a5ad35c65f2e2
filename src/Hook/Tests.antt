-- ===== src/Hook/Tests.antt =====
-- Runs of the assembly with a concrete hook function, and its theorems at them.
use vpoline.Common.{
  ℕ, ◌-◌, ◌%◌, ◌^◌, ◌<◌, ◌≡◌, ◌≢◌, refl, arith, true, some, Option, ◌==◌, ==_ne, inl, if◌then◌else◌,
}
use vpoline.Memory.{Memory, load, store, update}
use vpoline.Memory.Laws.{IsBytes, store-IsBytes}
use vpoline.Hook.{run_hook}
use vpoline.Hook.Callee.{HookFn, WrapperRet, syscall_hook}
use vpoline.Hook.Lines.{State, jumped}
use vpoline.Hook.Call.{IsCallee, callee_saved}
use vpoline.Hook.Leave.{return_offset}
use vpoline.Hook.Context.{Prepared, decision, run_hook-Prepared}
use vpoline.Hook.Sigreturn.{run_hook-rt_sigreturn}

-- A hook function that answers system call 64 with 42, and forwards all else.
abbrev pub function : HookFn
function syscall_number a0 a1 a2 a3 a4 a5 = record {
  ret = if syscall_number == 64 then 0 else 1;
  result = 42;
}

abbrev pub hook_fn : Option HookFn
hook_fn = some function

-- The address of `relocated_global_pointer`.
abbrev pub symbol : ℕ
symbol = 0x2000

abbrev answer : State → WrapperRet
answer s =
    syscall_hook hook_fn (s.regs 10) (s.regs 11) (s.regs 12) (s.regs 13) (s.regs 14) (s.regs 15)
      (s.regs 16) (s.regs 17)

-- A compiled `syscall_hook` that clobbers t0 besides.
abbrev pub callee : State → State
callee s = record s {
  regs = update (update (update s.regs 10 (answer s).value) 11 (answer s).handled) 5 0xdead;
}

not_results : (r : ℕ) → callee_saved r ≡ true → (r ≢ 5) × (r ≢ 10) × (r ≢ 11)
not_results r h = ground arith

pub callee-IsCallee : IsCallee hook_fn symbol callee
callee-IsCallee = record {
  value = λ s. refl;
  handled = λ s. refl;
  saved = λ s r h.
      let (n5, n10, n11) = not_results r h in rw (==_ne r 5 n5, ==_ne r 10 n10, ==_ne r 11 n11);
  frame = λ s x p q. refl;
  global = λ s. refl;
}

abbrev empty : Memory
empty _ = 0

-- A call with a number in a7, from the trampoline: the frame at 0x10000, the return address in gp.
abbrev pub called : ℕ → State
called a7 = record {
  regs =
      λ r. if r == 2 then 0x1_0000 else if r == 3 then 0x5_1234 else if r == 17 then a7 else r % 64;
  mem = store 8 empty symbol 0x50_0800;
}

pub called-IsBytes : (a7 : ℕ) → IsBytes (called a7).mem
called-IsBytes a7 = store-IsBytes 8 empty symbol 0x50_0800 (λ x. omega arith)

called_words : (r : ℕ) → (called 64).regs r < 2 ^ 64
called_words r = ground arith

run_hook-Prepared_example :
    (t : State) × (run_hook symbol callee (called 64)
      ≡ jumped
          (load 8 (called 64).mem symbol - return_offset (decision hook_fn (called 64)).handled 64)
          t)
    × Prepared callee (decision hook_fn (called 64)) (load 8 (called 64).mem symbol) (called 64) t
unfolding load store
run_hook-Prepared_example =
    run_hook-Prepared hook_fn symbol callee callee-IsCallee (called 64) called_words
      (called-IsBytes 64) (omega arith) (omega arith) (inl (omega arith)) (omega arith) refl
      (omega arith)

run_hook-rt_sigreturn_example :
    (t : State) × (run_hook symbol callee (called 139)
      ≡ jumped (load 8 (called 139).mem symbol - 40) t)
    × ((r : ℕ) → r ≢ 3 → r ≢ 5 → r ≢ 6 → r ≢ 7 → r ≢ 28 → t.regs r ≡ (called 139).regs r)
unfolding load store
run_hook-rt_sigreturn_example =
    run_hook-rt_sigreturn symbol callee (called 139) (called-IsBytes 139) (omega arith)
      (omega arith) (inl (omega arith)) refl refl (omega arith)
