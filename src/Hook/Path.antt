-- ===== src/Hook/Path.antt =====
-- src/main.c: the way through `asm_syscall_hook`, from the trampoline to one of the return paths.
use vpoline.Common.{ℕ, ◌+◌, ◌≡◌, refl, false, ◌==◌, List, [], ◌∷◌, ◌++◌, u64, ◌∙◌, ap}
use vpoline.Memory.{Memory, load, store, update}
use vpoline.Hook.{save_context, restore_context, dispatch_lines, text, run_hook}
use vpoline.Hook.Lines.{
  Asm, State, run_lines, sd, mv, la, ld, li, call_syscall_hook, do_rt_sigreturn,
  relocated_global_pointer,
}
use vpoline.Hook.Frame.{lines, load_all, run_lines-append, run-beq_false}
use vpoline.Hook.Call.{save_slots, restore_slots, save-slots, restore-slots}
use vpoline.Hook.Middle.{after_call, middle}

-- The lines around the call, and those before the first branch.
abbrev call_lines : List Asm
call_lines = mv 16 6 ∷ call_syscall_hook ∷ mv 5 11 ∷ []

abbrev pub context_lines : List Asm
context_lines = save_context ++ (call_lines ++ (restore_context ++ dispatch_lines))

abbrev pub first_lines : List Asm
first_lines = sd 3 288 2 ∷ mv 6 3 ∷ la 5 relocated_global_pointer ∷ ld 3 0 5 ∷ li 5 139 ∷ []

-- The entry lines up to the branch.
abbrev pub entered : ℕ → State → State
entered symbol s =
    let m : Memory = store 8 s.mem (u64 (s.regs 2 + 288)) (s.regs 3) in
    record {
      mem = m;
      regs =
          update
            (update (update (update s.regs 6 (s.regs 3)) 5 symbol) 3 (load 8 m (u64 (symbol + 0))))
            5 139;
    }

-- The state at the dispatch.
abbrev pub dispatched : ℕ → (State → State) → State → State
dispatched symbol callee s = middle save_slots restore_slots callee (entered symbol s)

module _ (symbol : ℕ) (callee : State → State) where
  middle_lines :
      (s : State)
      → run_lines symbol callee text 4 context_lines s
        ≡ run_lines symbol callee text 4 dispatch_lines (middle save_slots restore_slots callee s)
  unfolding middle after_call
  middle_lines s =
      let t : State = lines symbol callee text save_context s in
      let u : State = lines symbol callee text call_lines t in
      run_lines-append symbol callee text 4 save_context
        (call_lines ++ (restore_context ++ dispatch_lines)) s refl
      ∙ run_lines-append symbol callee text 4 call_lines (restore_context ++ dispatch_lines) t refl
      ∙ run_lines-append symbol callee text 4 restore_context dispatch_lines u refl
      ∙ ap (run_lines symbol callee text 4 dispatch_lines) (
          restore-slots symbol callee u
          ∙ ap (λ (v : State). load_all restore_slots (lines symbol callee text call_lines v))
              (save-slots symbol callee s))

  pub entry_steps :
      (s : State)
      → (s.regs 17 == 139) ≡ false
      → run_hook symbol callee s
        ≡ run_lines symbol callee text 4 dispatch_lines (dispatched symbol callee s)
  unfolding run_hook
  entry_steps s n =
      run_lines-append symbol callee text 4 first_lines _ s refl
      ∙ run-beq_false symbol callee text 3 17 5 do_rt_sigreturn _ (entered symbol s) n
      ∙ middle_lines (entered symbol s)
