-- ===== src/Startup/Target/Tests.antt =====
-- A program in a build with DEBUG, and a debugger that starts it.
use vpoline.Common.{ℕ, ◌≡◌, refl, arith, true, false, [], ◌∷◌, ◌++◌, none, some, ap, inr, ◌⊎◌}
use vpoline.Common.Exit.{ok}
use vpoline.Text.{Bytes, codes}
use vpoline.Text.Tokens.{Avoids}
use vpoline.Text.Names.{c_string, strrchr, strcmp_equal}
use vpoline.Startup.{System, Process, vpoline_init}
use vpoline.Startup.Tests.{system, symbols, process}
use vpoline.Startup.Target.{
  Files, base_name, command_name, expected_name, runs_target, vpoline_init_debug,
}
use vpoline.Startup.Target.Expected.{IsBase, IsCommand, Expected, Expected-expected_name}
use vpoline.Startup.Target.Checked.{
  skipped, Bare, vpoline_init_debug-Expected, vpoline_init_debug-skipped,
}

-- No VPOLINE_TARGET, and no other variable.
abbrev plain : System
plain = record system { getenv = λ name. none }

abbrev cat : Files
cat = record { exe = some (codes "/bin/cat"); cmdline = some (codes "cat\0a.txt\0") }

abbrev first : Bytes → ℕ
first [] = 0
first (x ∷ s) = x

-- VPOLINE_TARGET is set to `cat`.
abbrev targeted : System
targeted = record system { getenv = λ name. some (codes "cat") }

abbrev gdb : Files
gdb = record { exe = some (codes "/bin/gdb"); cmdline = some (codes "gdb\0cat\0") }

cat-IsCommand : IsCommand cat (codes "cat")
cat-IsCommand =
    ((omega arith, (omega arith, (omega arith, tt))), omega arith, (codes "a.txt\0", refl))

gdb-IsCommand : IsCommand gdb (codes "gdb")
gdb-IsCommand =
    ((omega arith, (omega arith, (omega arith, tt))), omega arith, (codes "cat\0", refl))

cat-IsBase : IsBase (codes "/bin/cat") (codes "cat")
cat-IsBase = ((omega arith, (omega arith, (omega arith, tt))), inr (codes "/bin", refl))

gdb-IsBase : IsBase (codes "/bin/gdb") (codes "gdb")
gdb-IsBase = ((omega arith, (omega arith, (omega arith, tt))), inr (codes "/bin", refl))

-- A path of eight bytes that are not NUL.
whole : (name : Bytes) → Avoids 0 name → Avoids 0 (codes "/bin/" ++ name)
whole name h = (omega arith, (omega arith, (omega arith, (omega arith, (omega arith, h)))))

gdb-other : ¬ Expected targeted gdb (codes "gdb")
unfolding expected_name
gdb-other t =
    let e = Expected-expected_name targeted gdb (codes "gdb") t in
    let differs : b'c' ≡ b'g' = ap (λ (l : Bytes). first l) e in absurd (omega (arith, differs))

vpoline_init_debug-Expected_example :
    (Expected plain cat (codes "cat")
      × (vpoline_init_debug plain symbols cat process ≡ vpoline_init plain symbols process))
    ⊎ (¬ Expected plain cat (codes "cat")
        × (vpoline_init_debug plain symbols cat process ≡ some (ok (skipped process))))
vpoline_init_debug-Expected_example =
    vpoline_init_debug-Expected plain symbols cat process (codes "/bin/cat") (codes "cat") refl
      (whole (codes "cat") cat-IsCommand.0) (omega arith) (omega arith) cat-IsBase
      (inr (codes "cat", cat-IsCommand))

vpoline_init_debug-skipped_example :
    (q : Process) × (vpoline_init_debug targeted symbols gdb process ≡ some (ok q)) × Bare process q
vpoline_init_debug-skipped_example =
    vpoline_init_debug-skipped targeted symbols gdb process (codes "/bin/gdb") (codes "gdb") refl
      (whole (codes "gdb") gdb-IsCommand.0) (omega arith) (omega arith) gdb-IsBase
      (inr (codes "gdb", gdb-IsCommand)) refl gdb-other

-- The check accepts `cat` and passes over the debugger.
cat_runs : runs_target plain cat ≡ true
unfolding runs_target expected_name command_name base_name c_string strrchr strcmp_equal
cat_runs = refl

gdb_passed : runs_target targeted gdb ≡ false
unfolding runs_target expected_name command_name base_name c_string strrchr strcmp_equal
gdb_passed = refl
