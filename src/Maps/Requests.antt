-- ===== src/Maps/Requests.antt =====
-- The calls of `mprotect` that `rewrite_code` makes.
use vpoline.Common.{
  Option, ℕ, ◌-◌, ◌^◌, ◌<◌, ◌≡◌, refl, arith, Bool, true, ◌&&◌, List, [], ◌∷◌, some, inl, inr, ◌⊎◌,
  All, Bool-cases,
}
use vpoline.Common.Exit.{Exit, ok, exit}
use vpoline.Memory.{Memory}
use vpoline.Rewrite.{Capstone, Mprotect}
use vpoline.Rewrite.Sweep.{IsCapstone}
use vpoline.Rewrite.Patched.{disassemble_and_rewrite-Rewritten, disassemble_and_rewrite-exit}
use vpoline.Maps.{rewrite_code}
use vpoline.Maps.Print.{Mapping, IsMapping, print_file}
use vpoline.Maps.Fields.{flags}
use vpoline.Maps.Line.{is_target, rewrite_target}
use vpoline.Maps.File.{rewrite_targets, rewrite_code-print_file}

-- A request for the whole range of a mapping.
abbrev pub request : Mapping → (prot : ℕ) → Mprotect
request m prot = record { addr = m.from_address; len = m.to_address - m.from_address; prot = prot }

-- Both requests for an executable range of libc are granted: to read, write and execute it, and
-- then for the protection that its line names.
abbrev pub IsOpen : (mprotect : Mprotect → Bool) → Mapping → Type 0
IsOpen mprotect m =
    is_target m ≡ true
    → (mprotect (request m 7) ≡ true)
      × (mprotect (request m (flags m.readable m.writable m.executable)) ≡ true)

module _ (cs : Capstone) (is : IsCapstone cs) (mprotect : Mprotect → Bool)
    (ready : (cs.cs_open && cs.cs_option_detail && cs.cs_option_mem && cs.cs_malloc) ≡ true) where
  -- The result of a list of mappings.
  abbrev Decided : List Mapping → Option (Exit Memory) → Type 0
  Decided ms result =
      (All (IsOpen mprotect) ms × ((mem' : Memory) × (result ≡ some (ok mem'))))
      ⊎ (¬ All (IsOpen mprotect) ms × (result ≡ some (exit 1)))

  target_cases :
      (m : Mapping)
      → IsMapping m
      → is_target m ≡ true
      → (mem : Memory) → Decided (m ∷ []) (rewrite_target cs mprotect m mem)
  unfolding rewrite_target
  target_cases m h target mem =
      let (le, small) : (m.from_address < m.to_address) × (m.to_address < 2 ^ 63) =
        (h.ordered, h.to_small) in
      let size = m.to_address - m.from_address in
      let prot = flags m.readable m.writable m.executable in
      elim (Bool-cases (mprotect (request m 7))) [
        | inr refused ↦
            let e =
              disassemble_and_rewrite-exit cs is mprotect m.from_address size prot mem
                (inl refused) in
            inr ((λ (opened, _). let (first, _) = opened target in absurd cc), rw target e)
        | inl granted ↦ elim (Bool-cases (mprotect (request m prot))) [
          | inr refused ↦
              let e =
                disassemble_and_rewrite-exit cs is mprotect m.from_address size prot mem
                  (inr (inr (refused, omega arith, omega arith))) in
              inr ((λ (opened, _). let (_, last) = opened target in absurd cc), rw target e)
          | inl restored ↦
              let (mem1, e, _) =
                disassemble_and_rewrite-Rewritten cs is mprotect m.from_address size prot mem ready
                  granted restored (omega arith) (omega arith) in
              inl (((λ yes. (granted, restored)), tt), (mem1, rw target e))
        ]
      ]

  mapping_cases :
      (m : Mapping)
      → IsMapping m
      → (mem : Memory) → Decided (m ∷ []) (rewrite_target cs mprotect m mem)
  unfolding rewrite_target
  mapping_cases m h mem = elim (Bool-cases (is_target m)) [
    | inl target ↦ target_cases m h target mem
    | inr other ↦ inl (((λ yes. absurd cc), tt), (mem, rw other refl))
  ]

  targets_cases :
      (ms : List Mapping)
      → All IsMapping ms
      → (mem : Memory) → Decided ms (rewrite_targets cs mprotect ms mem)
  unfolding rewrite_targets
  targets_cases [] h mem = inl (tt, (mem, refl))
  targets_cases (m ∷ ms) (h, hs) mem = elim (mapping_cases m h mem) [
    | inr (refused, e) ↦ inr ((λ (p, ps). refused (p, tt)), rw e refl)
    | inl ((p, _), (mem1, e)) ↦ elim (targets_cases ms hs mem1) [
      | inl (ps, (mem2, e2)) ↦ inl ((p, ps), (mem2, rw e e2))
      | inr (refused, e2) ↦ inr ((λ (_, ps). refused ps), rw e e2)
    ]
  ]

  -- For a capstone that starts and decodes only the bytes it is given, to instructions that are not
  -- empty and lie in them, with four bytes for `ecall`, and a file of lines in the format of proc(5),
  -- each with addresses below 2^63 and at most 4000 bytes behind the permissions: `rewrite_code`
  -- comes back when both requests for each executable range of libc are granted, to read,
  -- write and execute exactly this range and then for the protection of its line, whatever
  -- becomes of any other request; when one of them is refused, the process ends with status 1.
  pub rewrite_code-requests :
      (ms : List Mapping)
      → All IsMapping ms
      → (mem : Memory)
      → (All (IsOpen mprotect) ms
          × ((mem' : Memory) × (rewrite_code cs mprotect (some (print_file ms)) mem
                ≡ some (ok mem'))))
        ⊎ (¬ All (IsOpen mprotect) ms
            × (rewrite_code cs mprotect (some (print_file ms)) mem ≡ some (exit 1)))
  rewrite_code-requests ms h mem =
      rw (rewrite_code-print_file cs mprotect ms h mem) (targets_cases ms h mem)
