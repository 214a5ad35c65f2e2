-- ===== src/Maps.antt =====
-- src/main.c: `rewrite_code`, which finds the executable mappings of libc in /proc/self/maps.
pub mod Print
pub mod Fields
pub mod Line
pub mod File
pub mod Patched
pub mod Fuel
pub mod Moments
pub mod Underway
pub mod Course
pub mod Requests
pub mod Tests
use vpoline.Common.{
  ℕ, zero, suc, ◌==◌, if◌then◌else◌, List, [], ◌∷◌, Option, none, some, bit_and, bit_or, sub64,
  take, length, Bool,
}
use vpoline.Common.Exit.{Exit, ok, exit, and_then}
use vpoline.Memory.{Memory}
use vpoline.Text.{Bytes, codes, strstr, strtok, strtol, fgets}
use vpoline.Rewrite.{Capstone, Mprotect, disassemble_and_rewrite, exit_failure}

abbrev pub libc_name : Bytes
libc_name = codes "libc.so.6"

-- PROT_READ, PROT_WRITE and PROT_EXEC.
abbrev pub prot_read : ℕ
prot_read = 1

abbrev pub prot_write : ℕ
prot_write = 2

abbrev pub prot_exec : ℕ
prot_exec = 4

-- The loop over the letters of the permissions.
abbrev pub mem_prot : (flags : ℕ) → Bytes → ℕ
mem_prot flags [] = flags
mem_prot flags (c ∷ s) =
    let read = if c == b'r' then bit_or flags prot_read else flags in
    let write = if c == b'w' then bit_or read prot_write else read in
    let exec = if c == b'x' then bit_or write prot_exec else write in mem_prot exec s

-- The two parts of an address range: `addr` up to the first `-`, which becomes its end, and the text
-- behind it. Without a `-`, `&addr[k + 1]` is behind the end of the text, in the zeroed part of the
-- array if the text is shorter than the array.
unfoldable pub split_range : (addr : Bytes) → Bytes × Bytes
split_range [] = ([], [])
split_range (c ∷ s) =
    let rest = split_range s in if c == b'-' then ([], s) else (c ∷ rest.0, rest.1)

module _ (cs : Capstone) (mprotect : Mprotect → Bool) where
  -- From the first two words of a line, the range and the permissions.
  unfoldable pub rewrite_mapping : (addr perms : Bytes) → Memory → Option (Exit Memory)
  unfolding split_range
  rewrite_mapping addr perms mem =
      let prot = mem_prot 0 perms in
      let range = split_range (take 64 addr) in
      let from = strtol range.0 in
      let to = strtol range.1 in
      if bit_and prot prot_exec == 0
      then some (ok mem)
      else if from == 0
      then some (ok mem)
      else disassemble_and_rewrite cs mprotect from (sub64 to from) prot mem

  -- One line of the file; no token behind the second is used.
  unfoldable pub rewrite_line : Bytes → Memory → Option (Exit Memory)
  rewrite_line buf mem =
      if strstr buf libc_name
      then elim (strtok buf) [
        | none ↦ some (ok mem)
        | some (addr, rest) ↦ elim (strtok rest) [
          | none ↦ some (ok mem)
          | some (perms, _) ↦ rewrite_mapping addr perms mem
        ]
      ]
      else some (ok mem)

  -- The loop `while (fgets(buf, sizeof(buf), fp) != NULL)`, for a buffer of 4096 bytes; `none` when
  -- the fuel is used up.
  unfoldable pub rewrite_lines : (fuel : ℕ) → (stream : Bytes) → Memory → Option (Exit Memory)
  rewrite_lines fuel [] mem = some (ok mem)
  rewrite_lines zero (c ∷ stream) mem = none
  rewrite_lines (suc fuel) (c ∷ stream) mem =
      let line = fgets 4095 (c ∷ stream) in
      and_then (rewrite_line line.0 mem) (λ mem'. rewrite_lines fuel line.1 mem')

  -- `rewrite_code`; `maps` is what the reads of /proc/self/maps give, `none` when it is not opened.
  -- Every line that is read has a byte at least.
  unfoldable pub rewrite_code : (maps : Option Bytes) → Memory → Option (Exit Memory)
  rewrite_code none mem = some (exit exit_failure)
  rewrite_code (some maps) mem = rewrite_lines (length maps) maps mem
