-- ===== src/Startup/Target.antt =====
-- src/main.c: `__vpoline_init` in builds with DEBUG, which sets up the process only when it runs the
-- target program.
pub mod Expected
pub mod Checked
mod Tests
use vpoline.Common.{
  ℕ, ◌-◌, Bool, false, ◌==◌, if◌then◌else◌, Option, none, some, length, take, drop,
}
use vpoline.Common.Exit.{Exit, ok}
use vpoline.Text.{Bytes, codes}
use vpoline.Text.Names.{c_string, strrchr, strcmp_equal}
use vpoline.Startup.{System, Symbols, Process, with_gp, vpoline_init}

-- The target of the link /proc/self/exe, `none` when `readlink` fails, and the contents of
-- /proc/self/cmdline, `none` when it is not opened.
pub record Files : Type 0 where
  pub exe : Option Bytes
  pub cmdline : Option Bytes

-- PATH_MAX.
abbrev pub path_max : ℕ
path_max = 4096

-- `base`: the text behind the last slash, or all of it.
unfoldable pub base_name : Bytes → Bytes
base_name path = elim (strrchr path b'/') [ none ↦ path | some base ↦ drop 1 base ]

-- `expected` behind the opened /proc/self/cmdline.
unfoldable pub command_name : Bytes → Option Bytes
command_name contents =
    let expected_buf = take (path_max - 1) contents in
    if length expected_buf == 0 then none else some (base_name (c_string expected_buf))

-- The name that no setting has replaced.
abbrev pub default_name : Bytes
default_name = codes "dummy_exec"

abbrev pub or_default : Option Bytes → Bytes
or_default none = default_name
or_default (some expected) = expected

-- `expected`.
unfoldable pub expected_name : System → Files → Bytes
expected_name sys files = elim (sys.getenv (codes "VPOLINE_TARGET")) [
  | some expected ↦ expected
  | none ↦ elim files.cmdline [
    | none ↦ default_name
    | some contents ↦ or_default (command_name contents)
  ]
]

-- The check, `false` where the function returns.
unfoldable pub runs_target : System → Files → Bool
runs_target sys files = elim files.exe [
  | none ↦ false
  | some link ↦
      let path = take (path_max - 1) link in
      if length path == 0
      then false
      else strcmp_equal (base_name (c_string path)) (expected_name sys files)
]

-- `__vpoline_init` with the check.
unfoldable pub vpoline_init_debug : System → Symbols → Files → Process → Option (Exit Process)
vpoline_init_debug sys sym files p =
    if runs_target sys files
    then vpoline_init sys sym p
    else some (ok (record p { globals = with_gp p }))
