-- ===== src/Maps/File.antt =====
-- `rewrite_code` on the whole file.
use mathlib.Core.List.{append_assoc}
use vpoline.Common.{
  ℕ, zero, suc, ◌≤◌, ◌<◌, ◌≡◌, ◌≢◌, refl, arith, Bool, List, [], ◌∷◌, ◌++◌, Option, some, ◌∙◌, ap,
  All, All-append, length, length-append,
}
use vpoline.Common.Exit.{Exit, ok, and_then, and_then-ext}
use vpoline.Memory.{Memory}
use vpoline.Text.{Bytes, fgets}
use vpoline.Text.Tokens.{Avoids, fgets-append, strstr-newline}
use vpoline.Rewrite.{Capstone, Mprotect}
use vpoline.Maps.{libc_name, rewrite_line, rewrite_lines, rewrite_code}
use vpoline.Maps.Print.{
  Mapping, IsMapping, print_address, print_perms, print_before, print_mapping, print_file,
}
use vpoline.Maps.Fields.{print_address-Avoids, length-print_address, hex-ne-newline, perms-Avoids}
use vpoline.Maps.Line.{rewrite_target, rewrite_line-print_before}

-- A text behind the rest of a line.
print_before-append : (m : Mapping) (r q : Bytes) → print_before m r ++ q ≡ print_before m (r ++ q)
print_before-append m r q =
    append_assoc (print_address m.from_address) _ q
    ∙ ap (λ t. print_address m.from_address ++ (b'-' ∷ t))
        (append_assoc (print_address m.to_address) _ q)

print_mapping-Avoids : (m : Mapping) → IsMapping m → Avoids b'\n' (print_mapping m)
unfolding print_mapping
print_mapping-Avoids m is =
    let no_newline : ℕ → Type 0 = λ c. c ≢ b'\n' in
    All-append no_newline (print_address m.from_address) _
      (print_address-Avoids m.from_address b'\n' hex-ne-newline)
      (
        omega arith,
        All-append no_newline (print_address m.to_address) _
            (print_address-Avoids m.to_address b'\n' hex-ne-newline)
            (
              omega arith,
              All-append no_newline (print_perms m.readable m.writable m.executable m.shared)
                  (b' ' ∷ m.rest)
                  (perms-Avoids m.readable m.writable m.executable m.shared b'\n' (omega arith))
                  (omega arith, is.one_line),
            ),
      )

length-print_mapping :
    (m : Mapping) → IsMapping m → (0 < length (print_mapping m)) × (length (print_mapping m) < 4095)
unfolding print_mapping
length-print_mapping m is =
    let perms = print_perms m.readable m.writable m.executable m.shared in
    let behind = b'-' ∷ (print_address m.to_address ++ (b' ' ∷ (perms ++ (b' ' ∷ m.rest)))) in
    omega (
      arith,
      is.short,
      length-append (print_address m.from_address) behind,
      length-append (print_address m.to_address) (b' ' ∷ (perms ++ (b' ' ∷ m.rest))),
      length-print_address m.from_address,
      length-print_address m.to_address,
    )

module _ (cs : Capstone) (mprotect : Mprotect → Bool) where
  -- The mappings in turn, up to the first that ends the process.
  unfoldable pub rewrite_targets : List Mapping → Memory → Option (Exit Memory)
  rewrite_targets [] mem = some (ok mem)
  rewrite_targets (m ∷ ms) mem =
      and_then (rewrite_target cs mprotect m mem) (λ mem'. rewrite_targets ms mem')

  -- One round of the loop.
  lines_step :
      (fuel : ℕ) (s : Bytes) (mem : Memory) (line rest : Bytes)
      → 0 < length s
      → fgets 4095 s ≡ (line, rest)
      → rewrite_lines cs mprotect (suc fuel) s mem
        ≡ and_then
            (rewrite_line cs mprotect line mem)
            (λ mem'. rewrite_lines cs mprotect fuel rest mem')
  unfolding rewrite_lines
  lines_step fuel [] mem line rest pos e = absurd (omega (arith, pos))
  lines_step fuel (c ∷ s) mem line rest pos e = rw (rewrite_lines, e) refl

  line-print_mapping :
      (m : Mapping)
      → IsMapping m
      → (mem : Memory)
      → rewrite_line cs mprotect (print_mapping m ++ (b'\n' ∷ [])) mem
        ≡ rewrite_target cs mprotect m mem
  unfolding print_mapping
  line-print_mapping m is mem =
      ap (λ t. rewrite_line cs mprotect t mem) (print_before-append m m.rest (b'\n' ∷ []))
      ∙ rewrite_line-print_before cs mprotect m is (m.rest ++ (b'\n' ∷ [])) mem
          (strstr-newline m.rest libc_name b'\n' (omega arith))

  lines-print_file :
      (fuel : ℕ) (ms : List Mapping)
      → All IsMapping ms
      → (mem : Memory) → length (print_file ms) ≤ fuel
      → rewrite_lines cs mprotect fuel (print_file ms) mem ≡ rewrite_targets ms mem
  unfolding print_file rewrite_targets rewrite_lines
  lines-print_file fuel [] h mem enough = refl
  lines-print_file zero (m ∷ ms) (h, hs) mem enough =
      absurd (omega (arith, enough, length-append (print_mapping m) (b'\n' ∷ print_file ms)))
  lines-print_file (suc fuel) (m ∷ ms) (h, hs) mem enough =
      let line = print_mapping m ++ (b'\n' ∷ []) in
      let total = length-append (print_mapping m) (b'\n' ∷ print_file ms) in
      let size = length-print_mapping m h in
      lines_step fuel (print_mapping m ++ (b'\n' ∷ print_file ms)) mem line (print_file ms)
        (omega (arith, total))
        (fgets-append 4095 (print_mapping m) (print_file ms) (print_mapping-Avoids m h) size.1)
      ∙ ap (λ first. and_then first (λ mem'. rewrite_lines cs mprotect fuel (print_file ms) mem'))
          (line-print_mapping m h mem)
      ∙ and_then-ext (rewrite_target cs mprotect m mem)
          (λ mem'. rewrite_lines cs mprotect fuel (print_file ms) mem')
          (λ mem'. rewrite_targets ms mem')
          (λ mem'. lines-print_file fuel ms hs mem' (omega (arith, enough, total, size)))

  -- For a file of lines in the format of proc(5), each with addresses below 2^63 and at most 4000
  -- bytes behind the permissions, `rewrite_code` rewrites exactly the executable mappings whose
  -- line has the name of libc behind the permissions and whose range does not start at 0: in the
  -- order of the file, each with its range and its protection read back from the text. It never
  -- runs out of fuel before one of these does.
  pub rewrite_code-print_file :
      (ms : List Mapping)
      → All IsMapping ms
      → (mem : Memory)
      → rewrite_code cs mprotect (some (print_file ms)) mem ≡ rewrite_targets ms mem
  unfolding rewrite_code
  rewrite_code-print_file ms h mem =
      lines-print_file (length (print_file ms)) ms h mem (omega arith)
