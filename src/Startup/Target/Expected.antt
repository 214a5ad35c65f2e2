-- ===== src/Startup/Target/Expected.antt =====
-- src/main.c: which program the check of builds with DEBUG accepts.
use vpoline.Common.{
  ℕ, zero, suc, ◌≤◌, ◌<◌, ◌≡◌, refl, arith, false, ◌==◌, [], ◌∷◌, ◌++◌, none, some, ◌⊎◌, inl, inr,
  Option-cases, length, length-append, take, take-all,
}
use vpoline.Text.{Bytes, codes}
use vpoline.Text.Tokens.{Avoids}
use vpoline.Text.Names.{
  strcmp_equal, c_string-whole, c_string-take, strrchr-none, strrchr-last, strrchr-cases,
}
use vpoline.Startup.{System}
use vpoline.Startup.Target.{
  Files, base_name, command_name, default_name, expected_name, runs_target,
}

-- The last component of a path.
abbrev pub IsBase : (path name : Bytes) → Type 0
IsBase path name =
    Avoids b'/' name × ((path ≡ name) ⊎ ((directory : Bytes) × (path ≡ directory ++ (b'/' ∷ name))))

-- The contents of /proc/self/cmdline with a first argument.
abbrev pub IsCommand : Files → (argument : Bytes) → Type 0
IsCommand files argument =
    Avoids 0 argument
    × (length argument ≤ 4095)
    × ((rest : Bytes) × (files.cmdline ≡ some (argument ++ (0 ∷ rest))))

-- No contents of /proc/self/cmdline.
abbrev pub HasNone : Files → Type 0
HasNone files = (files.cmdline ≡ none) ⊎ (files.cmdline ≡ some [])

-- The program that is meant: the one of VPOLINE_TARGET, else the one of the command line, else
-- dummy_exec.
pub data Expected (sys : System) (files : Files) : Bytes → Type 0 where
  named : (name : Bytes) → sys.getenv (codes "VPOLINE_TARGET") ≡ some name → Expected sys files name
  command :
      (argument name : Bytes)
      → sys.getenv (codes "VPOLINE_TARGET") ≡ none
      → IsCommand files argument
      → IsBase argument name
      → Expected sys files name
  fallback :
      sys.getenv (codes "VPOLINE_TARGET") ≡ none → HasNone files → Expected sys files default_name

IsBase-base_name : (path name : Bytes) → IsBase path name → base_name path ≡ name
unfolding base_name
IsBase-base_name path name (h, inl e) = rw (e, base_name, strrchr-none name b'/' h) e
IsBase-base_name path name (h, inr (d, e)) = rw (e, base_name, strrchr-last d name b'/' h) refl

base_name-IsBase : (path : Bytes) → IsBase path (base_name path)
base_name-IsBase path = elim (strrchr-cases path b'/') [
  | inl none_of ↦
      let i : IsBase path path = (none_of, inl refl) in rw (IsBase-base_name path path i) i
  | inr (d, t, e, h) ↦ let i : IsBase path t = (h, inr (d, e)) in rw (IsBase-base_name path t i) i
]

-- A buffer that is filled from a text that is not empty.
take-full : (n : ℕ) (s : Bytes) → 0 < n → 0 < length s → (length (take n s) == 0) ≡ false
take-full zero s room pos = absurd (omega (arith, room))
take-full (suc n) [] room pos = absurd (omega (arith, pos))
take-full (suc n) (x ∷ s) room pos = ground arith

command_name-append :
    (argument rest : Bytes)
    → Avoids 0 argument
    → length argument ≤ 4095
    → command_name (argument ++ (0 ∷ rest)) ≡ some (base_name argument)
unfolding command_name
command_name-append argument rest h fits =
    let pos = length-append argument (0 ∷ rest) in
    let full = take-full 4095 (argument ++ (0 ∷ rest)) (omega arith) (omega (arith, pos)) in
    rw (command_name, full, c_string-take 4095 argument rest h fits) refl

module _ (sys : System) (files : Files) where
  -- There is one such program.
  pub Expected-expected_name :
      (name : Bytes) → Expected sys files name → expected_name sys files ≡ name
  unfolding expected_name command_name
  Expected-expected_name name (Expected.named _ e) = rw (expected_name, e) refl
  Expected-expected_name name (Expected.command argument _ e (h, fits, (rest, line)) base) =
      rw (expected_name, e, line, command_name-append argument rest h fits)
        (IsBase-base_name argument name base)
  Expected-expected_name _ (Expected.fallback e (inl line)) = rw (expected_name, e, line) refl
  Expected-expected_name _ (Expected.fallback e (inr line)) = rw (expected_name, e, line) refl

  pub expected_name-Expected :
      HasNone files ⊎ ((argument : Bytes) × IsCommand files argument)
      → Expected sys files (expected_name sys files)
  expected_name-Expected line = elim (Option-cases (sys.getenv (codes "VPOLINE_TARGET"))) [
    | inr (name, e) ↦
        let t : Expected sys files name = Expected.named name e in
        rw (Expected-expected_name name t) t
    | inl e ↦ elim line [
      | inl missing ↦
          let t : Expected sys files default_name = Expected.fallback e missing in
          rw (Expected-expected_name default_name t) t
      | inr (argument, is) ↦
          let t : Expected sys files (base_name argument) =
            Expected.command argument (base_name argument) e is (base_name-IsBase argument) in
          rw (Expected-expected_name (base_name argument) t) t
    ]
  ]

  -- The link as the buffer holds it.
  pub runs_target-path :
      (path name : Bytes)
      → files.exe ≡ some path
      → Avoids 0 path
      → 0 < length path
      → length path ≤ 4095
      → IsBase path name
      → runs_target sys files ≡ strcmp_equal name (expected_name sys files)
  unfolding runs_target expected_name
  runs_target-path path name link h pos fits base =
      let full : (length path == 0) ≡ false = ground arith in
      rw
        (
          runs_target,
          link,
          take-all 4095 path fits,
          full,
          c_string-whole path h,
          IsBase-base_name path name base,
        )
        refl
