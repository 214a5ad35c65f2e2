-- ===== src/Startup/Target/Checked.antt =====
-- src/main.c: what `__vpoline_init` does behind the check of builds with DEBUG.
use vpoline.Common.{ℕ, ◌≤◌, ◌<◌, ◌≡◌, refl, some, ap, ◌⊎◌, inl, inr, Bool-cases, length}
use vpoline.Common.Exit.{ok}
use vpoline.Text.{Bytes, codes}
use vpoline.Text.Tokens.{Avoids}
use vpoline.Text.Names.{strcmp_equal, strcmp_equal-same, strcmp_equal-eq}
use vpoline.Startup.{System, Symbols, Process, StartMain, with_gp, vpoline_init, libc_start_main}
use vpoline.Startup.Target.{Files, expected_name, vpoline_init_debug}
use vpoline.Startup.Target.Expected.{
  IsBase, IsCommand, HasNone, Expected, Expected-expected_name, expected_name-Expected,
  runs_target-path,
}

-- The set-up is left out: only the first value of gp is stored.
abbrev pub skipped : Process → Process
skipped p = record p { globals = with_gp p }

-- In builds with DEBUG, for a link /proc/self/exe to a path of 1 to 4095 bytes, without NUL, with the
-- last component `name`, and a /proc/self/cmdline that is not opened, is empty or has a first
-- argument of at most 4095 bytes: `__vpoline_init` sets up the process as in other builds when `name`
-- is the program that is meant, and else changes nothing but `virtual_global_pointer`. That
-- program is the value of VPOLINE_TARGET, without it the last component of the first argument,
-- and without both dummy_exec.
pub vpoline_init_debug-Expected :
    (sys : System) (symbols : Symbols) (files : Files) (p : Process) (path name : Bytes)
    → files.exe ≡ some path
    → Avoids 0 path
    → 0 < length path
    → length path ≤ 4095
    → IsBase path name
    → HasNone files ⊎ ((argument : Bytes) × IsCommand files argument)
    → (Expected sys files name
        × (vpoline_init_debug sys symbols files p ≡ vpoline_init sys symbols p))
      ⊎ (¬ Expected sys files name
          × (vpoline_init_debug sys symbols files p ≡ some (ok (skipped p))))
unfolding vpoline_init_debug
vpoline_init_debug-Expected sys symbols files p path name link h pos fits base line =
    let answer = runs_target-path sys files path name link h pos fits base in
    let meant : Expected sys files (expected_name sys files) =
      expected_name-Expected sys files line in
    elim (Bool-cases (strcmp_equal name (expected_name sys files))) [
      | inl equal ↦
          let same : name ≡ expected_name sys files = strcmp_equal-eq name _ equal in
          inl (rw same meant, rw (vpoline_init_debug, answer, equal) refl)
      | inr differs ↦ inr (
        (λ t.
            let same = Expected-expected_name sys files name t in
            absurd (cc (same, strcmp_equal-same name, differs))),
        rw (vpoline_init_debug, answer, differs) refl,
      )
    ]

-- The process behind a set-up that is left out: memory and handlers are as they were, and
-- `__libc_start_main` starts the program with gp at 0, whatever gp is when it is called.
pub record Bare (p q : Process) : Type 1 where
  pub memory_kept : q.memory ≡ p.memory
  pub signals_kept : q.signals ≡ p.signals
  pub main_gp :
      {R : Type 0} (start : Bytes → StartMain → Process → R) (args : StartMain) (gp : ℕ)
      → libc_start_main start args (record q { gp = gp })
        ≡ start (codes "__libc_start_main") args (record q { gp = 0 })

-- In builds with DEBUG, for a link /proc/self/exe to a path of 1 to 4095 bytes, without NUL, with the
-- last component `name`, a /proc/self/cmdline that is not opened, is empty or has a first argument
-- of at most 4095 bytes, and global variables that are 0 at the start: when `name` is not the
-- program that is meant, then `__vpoline_init` leaves memory and handlers as they were, and yet
-- `__libc_start_main` sets gp to 0 before it calls the next function of its name.
pub vpoline_init_debug-skipped :
    (sys : System) (symbols : Symbols) (files : Files) (p : Process) (path name : Bytes)
    → files.exe ≡ some path
    → Avoids 0 path
    → 0 < length path
    → length path ≤ 4095
    → IsBase path name
    → HasNone files ⊎ ((argument : Bytes) × IsCommand files argument)
    → p.globals.rsi.relocated_gp ≡ 0
    → ¬ Expected sys files name
    → (q : Process) × (vpoline_init_debug sys symbols files p ≡ some (ok q)) × Bare p q
unfolding libc_start_main
vpoline_init_debug-skipped sys symbols files p path name link h pos fits base line unset other =
    elim (vpoline_init_debug-Expected sys symbols files p path name link h pos fits base line) [
      | inl (meant, e) ↦ absurd (other meant)
      | inr (_, e) ↦ (
        skipped p,
        e,
        record {
          memory_kept = refl;
          signals_kept = refl;
          main_gp = λ start args gp.
              ap (λ (a : ℕ). start (codes "__libc_start_main") args (record (skipped p) { gp = a }))
                unset;
        },
      )
    ]
