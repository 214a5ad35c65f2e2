-- ===== src/Maps/Line.antt =====
-- `rewrite_code` on one line of the file.
use mathlib.Core.List.{append_assoc}
use vpoline.Common.{
  ℕ, ◌-◌, ◌≤◌, ◌<◌, ◌≡◌, ◌≢◌, refl, arith, Bool, true, false, ◌==◌, ◌&&◌, not, if◌then◌else◌, [],
  ◌∷◌, ◌++◌, Option, some, ◌∙◌, ap, sym, All-append, length, length-append, take, take-all, bit_and,
  sub64,
}
use vpoline.Common.Exit.{Exit, ok}
use vpoline.Memory.{Memory}
use vpoline.Text.{Bytes, codes, strstr, strtok, strtol}
use vpoline.Text.Tokens.{Avoids, strtok-append, strstr-append}
use vpoline.Rewrite.{Capstone, Mprotect, disassemble_and_rewrite}
use vpoline.Maps.{libc_name, mem_prot, split_range, rewrite_mapping, rewrite_line, prot_exec}
use vpoline.Maps.Print.{Mapping, IsMapping, print_address, print_perms, print_before}
use vpoline.Maps.Fields.{
  strtol-print_address, length-print_address, print_address-Avoids, hex-ne-dash, hex-ne-space,
  hex-ne-l, split_range-append, flags, mem_prot-print_perms, flags-exec, perms-Avoids,
}

module _ (m : Mapping) (r : Bytes) where
  abbrev perms : Bytes
  perms = print_perms m.readable m.writable m.executable m.shared

  abbrev from_text : Bytes
  from_text = print_address m.from_address

  abbrev to_text : Bytes
  to_text = print_address m.to_address

  -- The fields have no `l`, with which the name of libc starts.
  strstr-print_before : strstr (print_before m r) libc_name ≡ strstr r libc_name
  strstr-print_before =
      strstr-append from_text (b'-' ∷ (to_text ++ (b' ' ∷ (perms ++ (b' ' ∷ r))))) b'l'
        (codes "ibc.so.6") (print_address-Avoids m.from_address b'l' hex-ne-l)
      ∙ strstr-append (b'-' ∷ to_text) (b' ' ∷ (perms ++ (b' ' ∷ r))) b'l' (codes "ibc.so.6")
          ((omega arith), print_address-Avoids m.to_address b'l' hex-ne-l)
      ∙ strstr-append ((b' ' ∷ perms) ++ (b' ' ∷ [])) r b'l' (codes "ibc.so.6") (
          All-append (λ c. c ≢ b'l') (b' ' ∷ perms) (b' ' ∷ [])
            (
              omega arith,
              perms-Avoids m.readable m.writable m.executable m.shared b'l' (omega arith),
            )
            (omega arith, tt))

  abbrev range_text : Bytes
  range_text = from_text ++ (b'-' ∷ to_text)

  range_text-Avoids : Avoids b' ' range_text
  range_text-Avoids =
      All-append (λ c. c ≢ b' ') from_text (b'-' ∷ to_text)
        (print_address-Avoids m.from_address b' ' hex-ne-space)
        (omega arith, print_address-Avoids m.to_address b' ' hex-ne-space)

  length-range_text : (0 < length range_text) × (length range_text ≤ 64)
  length-range_text = omega (
    arith,
    length-append from_text (b'-' ∷ to_text),
    length-print_address m.from_address,
    length-print_address m.to_address,
  )

  first_token : strtok (print_before m r) ≡ some (range_text, perms ++ (b' ' ∷ r))
  first_token =
      ap strtok (sym (append_assoc from_text (b'-' ∷ to_text) (b' ' ∷ (perms ++ (b' ' ∷ r)))))
      ∙ strtok-append range_text (perms ++ (b' ' ∷ r)) length-range_text.0 range_text-Avoids

  second_token : strtok (perms ++ (b' ' ∷ r)) ≡ some (perms, r)
  second_token =
      strtok-append perms r (omega arith)
        (perms-Avoids m.readable m.writable m.executable m.shared b' ' (omega arith))

guarded {ℓ} :
    {A : Type ℓ} (x z : Bool) (a b : A)
    → (if not x then a else if z then a else b) ≡ (if x && not z then b else a)
guarded true true a b = refl
guarded true false a b = refl
guarded false z a b = refl

both {ℓ} :
    {A : Type ℓ} (x z : Bool) (a b : A)
    → (if x then if z then b else a else a) ≡ (if x && z then b else a)
both true z a b = refl
both false z a b = refl

-- What a mapping is to `rewrite_code`: a range of code that it rewrites, or nothing.
unfoldable pub is_target : Mapping → Bool
is_target m = strstr m.rest libc_name && (m.executable && not (m.from_address == 0))

module _ (cs : Capstone) (mprotect : Mprotect → Bool) where
  unfoldable pub rewrite_target : Mapping → Memory → Option (Exit Memory)
  unfolding is_target
  rewrite_target m mem =
      if is_target m
      then disassemble_and_rewrite cs mprotect m.from_address (m.to_address - m.from_address)
          (flags m.readable m.writable m.executable) mem
      else some (ok mem)

  module _ (m : Mapping) (is : IsMapping m) (r : Bytes) (mem : Memory) where
    range_parts :
        split_range (take 64 (range_text m r))
        ≡ (print_address m.from_address, print_address m.to_address)
    range_parts =
        ap split_range (take-all 64 (range_text m r) (length-range_text m r).1)
        ∙ split_range-append (print_address m.from_address) (print_address m.to_address)
            (print_address-Avoids m.from_address b'-' hex-ne-dash)

    -- The code with the values of its variables.
    mapping_steps :
        (addr p : Bytes) (range : Bytes × Bytes) (prot from to : ℕ)
        → mem_prot 0 p ≡ prot
        → split_range (take 64 addr) ≡ range
        → strtol range.0 ≡ from
        → strtol range.1 ≡ to
        → rewrite_mapping cs mprotect addr p mem ≡ (
            if bit_and prot prot_exec == 0
            then some (ok mem)
            else if from == 0
            then some (ok mem)
            else disassemble_and_rewrite cs mprotect from (sub64 to from) prot mem)
    unfolding rewrite_mapping
    mapping_steps addr p range prot from to e1 e2 e3 e4 = rw (e1, e2, e3, e4) refl

    rewrite_mapping-fields : rewrite_mapping cs mprotect (range_text m r) (perms m r) mem ≡ (
        if m.executable && not (m.from_address == 0)
        then disassemble_and_rewrite cs mprotect m.from_address
            (m.to_address - m.from_address)
            (flags m.readable m.writable m.executable)
            mem
        else some (ok mem))
    rewrite_mapping-fields =
        let prot = flags m.readable m.writable m.executable in
        let size : sub64 m.to_address m.from_address ≡ m.to_address - m.from_address =
          omega (arith, is.ordered, is.to_small) in
        mapping_steps (range_text m r) (perms m r)
          (print_address m.from_address, print_address m.to_address) prot m.from_address
          m.to_address (mem_prot-print_perms m.readable m.writable m.executable m.shared)
          range_parts (strtol-print_address m.from_address is.from_small)
          (strtol-print_address m.to_address is.to_small)
        ∙ rw (flags-exec m.readable m.writable m.executable, size)
            (guarded m.executable (m.from_address == 0) _ _)

    pub rewrite_line-print_before :
        strstr r libc_name ≡ strstr m.rest libc_name
        → rewrite_line cs mprotect (print_before m r) mem ≡ rewrite_target m mem
    unfolding rewrite_line rewrite_target is_target
    rewrite_line-print_before same =
        rw
          (strstr-print_before m r, same, first_token m r, second_token m r, rewrite_mapping-fields)
          (both (strstr m.rest libc_name) (m.executable && not (m.from_address == 0)) _ _)
