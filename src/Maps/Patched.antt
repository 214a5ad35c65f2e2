-- ===== src/Maps/Patched.antt =====
-- What `rewrite_code` leaves in memory, for the whole file.
use mathlib.Core.List.{Memᴰ}
use vpoline.Common.{
  ℕ, ◌+◌, ◌-◌, ◌^◌, ◌≤◌, ◌<◌, ◌≡◌, refl, arith, Bool, true, false, ◌&&◌, List, [], ◌∷◌, some, ◌∙◌,
  sym, inl, inr, ◌⊎◌, All, All-imp, All-imp3, Bool-cases,
}
use vpoline.Common.Exit.{ok}
use vpoline.Memory.{Memory, load}
use vpoline.Memory.Laws.{load_ext}
use vpoline.Rewrite.{Capstone, Mprotect, jalr_gp}
use vpoline.Rewrite.Sweep.{IsCapstone, Sweeps}
use vpoline.Rewrite.Patched.{Outside, Rewritten, disassemble_and_rewrite-Rewritten}
use vpoline.Maps.{rewrite_code}
use vpoline.Maps.Print.{Mapping, IsMapping, print_file}
use vpoline.Maps.Fields.{flags}
use vpoline.Maps.Line.{is_target, rewrite_target}
use vpoline.Maps.File.{rewrite_targets, rewrite_code-print_file}
use Sweeps.{finished, skipped, passed, found}

-- The order of the file: each range ends before every later one starts.
abbrev pub Sorted : List Mapping → Type 0
Sorted [] = Unit
Sorted (m ∷ ms) = All (λ n. m.to_address ≤ n.from_address) ms × Sorted ms

-- A byte that is in no range of code of libc.
abbrev pub Apart : ℕ → Mapping → Type 0
Apart x m = is_target m ≡ true → (x < m.from_address) ⊎ (m.to_address ≤ x)

-- A range in the last memory, against the first: `jalr gp, gp, 0` at each `ecall` of the linear
-- sweep of the first, and the other bytes of the range as they were.
pub record Patched (cs : Capstone) (mem mem' : Memory) (m : Mapping) : Type 0 where
  pub sites : List ℕ
  pub swept : Sweeps cs mem (m.to_address - 1) m.from_address sites
  pub inside : (a : ℕ) → Memᴰ a sites → (m.from_address ≤ a) × (a + 4 ≤ m.to_address)
  pub replaced : (a : ℕ) → Memᴰ a sites → load 4 mem' a ≡ jalr_gp
  pub others : (x : ℕ) → m.from_address ≤ x → x < m.to_address → Outside sites x → mem' x ≡ mem x

-- Every range of code of libc is patched, and no byte outside them is changed.
pub record AllPatched (cs : Capstone) (ms : List Mapping) (mem mem' : Memory) : Type 0 where
  pub patched : All (λ m. is_target m ≡ true → Patched cs mem mem' m) ms
  pub elsewhere : (x : ℕ) → All (Apart x) ms → mem' x ≡ mem x

-- A sweep reads only the bytes of its range.
pub Sweeps-ext :
    (cs : Capstone)
    → IsCapstone cs
    → (m m' : Memory) (last a : ℕ) (l : List ℕ) → ((x : ℕ) → a ≤ x → x ≤ last → m x ≡ m' x)
    → Sweeps cs m last a l
    → Sweeps cs m' last a l
Sweeps-ext cs is m m' last a _ same (finished _ past) = finished a past
Sweeps-ext cs is m m' last a l same (skipped _ _ le e s) =
    let here = is.local m m' a (last + 1 - a) (λ x p q. same x p (omega arith)) in
    skipped a l le (sym here ∙ e)
      (Sweeps-ext cs is m m' last (a + 1) l (λ x p q. same x (omega arith) q) s)
Sweeps-ext cs is m m' last a l same (passed _ i _ le e is_other s) =
    let here = is.local m m' a (last + 1 - a) (λ x p q. same x p (omega arith)) in
    passed a i l le (sym here ∙ e) is_other
      (Sweeps-ext cs is m m' last (a + i.size) l (λ x p q. same x (omega arith) q) s)
Sweeps-ext cs is m m' last a _ same (found _ i l le e is_call s) =
    let here = is.local m m' a (last + 1 - a) (λ x p q. same x p (omega arith)) in
    found a i l le (sym here ∙ e) is_call
      (Sweeps-ext cs is m m' last (a + i.size) l (λ x p q. same x (omega arith) q) s)

-- A range that the memory before and behind the rewriting of the other ranges agree on.
pub Patched-before :
    (cs : Capstone)
    → IsCapstone cs
    → (mem mem1 mem2 : Memory) (m : Mapping) → m.from_address < m.to_address
    → ((x : ℕ) → m.from_address ≤ x → x < m.to_address → mem1 x ≡ mem x)
    → Patched cs mem1 mem2 m
    → Patched cs mem mem2 m
Patched-before cs is mem mem1 mem2 m le same p = record {
  sites = p.sites;
  swept =
      Sweeps-ext cs is mem1 mem (m.to_address - 1) m.from_address p.sites
        (λ x low high. same x low (omega arith)) p.swept;
  inside = p.inside;
  replaced = p.replaced;
  others = λ x low high out. p.others x low high out ∙ same x low high;
}

-- A later memory that agrees on the range.
pub Patched-after :
    (cs : Capstone) (mem mem1 mem2 : Memory) (m : Mapping)
    → ((x : ℕ) → m.from_address ≤ x → x < m.to_address → mem2 x ≡ mem1 x)
    → Patched cs mem mem1 m
    → Patched cs mem mem2 m
Patched-after cs mem mem1 mem2 m same p = record {
  sites = p.sites;
  swept = p.swept;
  inside = p.inside;
  replaced = λ a e.
      load_ext 4 mem2 mem1 a
        (λ x low high. same x (omega (arith, p.inside a e)) (omega (arith, p.inside a e)))
      ∙ p.replaced a e;
  others = λ x low high out. same x low high ∙ p.others x low high out;
}

module _ (cs : Capstone) (m : Mapping) (le : m.from_address < m.to_address) (mem mem1 : Memory)
    (r : Rewritten cs m.from_address (m.to_address - m.from_address) mem mem1) where
  pub Rewritten-Apart : (x : ℕ) → (x < m.from_address) ⊎ (m.to_address ≤ x) → mem1 x ≡ mem x
  Rewritten-Apart x (inl under) = r.others x (λ a e. inl (omega (arith, r.inside a e)))
  Rewritten-Apart x (inr over) = r.others x (λ a e. inr (omega (arith, r.inside a e)))

  Rewritten-Patched :
      (mem2 : Memory) → ((x : ℕ) → x < m.to_address → mem2 x ≡ mem1 x) → Patched cs mem mem2 m
  Rewritten-Patched mem2 same =
      let last : m.from_address + (m.to_address - m.from_address) - 1 ≡ m.to_address - 1 =
        omega arith in
      record {
        sites = r.sites;
        swept = rw (sym last) r.swept;
        inside = λ a e. omega (arith, r.inside a e);
        replaced = λ a e.
            load_ext 4 mem2 mem1 a (λ x p q. same x (omega (arith, r.inside a e))) ∙ r.replaced a e;
        others = λ x low high out. same x high ∙ r.others x out;
      }

module _ (cs : Capstone) (is : IsCapstone cs) (mprotect : Mprotect → Bool)
    (ready : (cs.cs_open && cs.cs_option_detail && cs.cs_option_mem && cs.cs_malloc) ≡ true)
    (granted : (request : Mprotect) → mprotect request ≡ true) where
  pub rewrite_target-Rewritten :
      (m : Mapping)
      → IsMapping m
      → is_target m ≡ true
      → (mem : Memory)
      → (mem1 : Memory) × (rewrite_target cs mprotect m mem ≡ some (ok mem1))
        × Rewritten cs m.from_address (m.to_address - m.from_address) mem mem1
  unfolding rewrite_target
  rewrite_target-Rewritten m h target mem =
      let (le, small) : (m.from_address < m.to_address) × (m.to_address < 2 ^ 63) =
        (h.ordered, h.to_small) in
      let (mem1, e, r) =
        disassemble_and_rewrite-Rewritten cs is mprotect m.from_address
          (m.to_address - m.from_address) (flags m.readable m.writable m.executable) mem ready
          (granted _) (granted _) (omega arith) (omega arith) in
      (mem1, rw target e, r)

  pub rewrite_target-other :
      (m : Mapping) (mem : Memory)
      → is_target m ≡ false
      → rewrite_target cs mprotect m mem ≡ some (ok mem)
  unfolding rewrite_target
  rewrite_target-other m mem passed_by = rw passed_by refl

  -- One target, and then the others.
  target-AllPatched :
      (m : Mapping) (ms : List Mapping)
      → IsMapping m
      → All IsMapping ms
      → Sorted (m ∷ ms)
      → (mem mem1 mem2 : Memory) → is_target m ≡ true
      → Rewritten cs m.from_address (m.to_address - m.from_address) mem mem1
      → AllPatched cs ms mem1 mem2
      → AllPatched cs (m ∷ ms) mem mem2
  target-AllPatched m ms h hs (later, sorted) mem mem1 mem2 target r rest =
      let before = Rewritten-Apart cs m h.ordered mem mem1 r in
      record {
        patched = (
          λ yes. Rewritten-Patched cs m h.ordered mem mem1 r mem2 (λ x under. rest.elsewhere x (
              All-imp (λ n. m.to_address ≤ n.from_address) (Apart x)
                (λ n le yes'. inl (omega arith)) ms later)),
          All-imp3 ms hs later rest.patched (λ n i le p yes.
              Patched-before cs is mem mem1 mem2 n i.ordered
                (λ x low high. before x (inr (omega arith))) (p yes)),
        );
        elsewhere = λ x (out, outs). rest.elsewhere x outs ∙ before x (out target);
      }

  other-AllPatched :
      (m : Mapping) (ms : List Mapping) (mem mem2 : Memory)
      → is_target m ≡ false
      → AllPatched cs ms mem mem2
      → AllPatched cs (m ∷ ms) mem mem2
  other-AllPatched m ms mem mem2 passed_by rest = record {
    patched = ((λ yes. cc), rest.patched);
    elsewhere = λ x (out, outs). rest.elsewhere x outs;
  }

  rewrite_targets-AllPatched :
      (ms : List Mapping)
      → All IsMapping ms
      → Sorted ms
      → (mem : Memory)
      → (mem' : Memory) × (rewrite_targets cs mprotect ms mem ≡ some (ok mem'))
        × AllPatched cs ms mem mem'
  unfolding rewrite_targets
  rewrite_targets-AllPatched [] h sorted mem =
      (mem, refl, record { patched = tt; elsewhere = λ x out. refl })
  rewrite_targets-AllPatched (m ∷ ms) (h, hs) (later, sorted) mem =
      elim (Bool-cases (is_target m)) [
        | inl target ↦
            let (mem1, e, r) = rewrite_target-Rewritten m h target mem in
            let (mem2, e2, rest) = rewrite_targets-AllPatched ms hs sorted mem1 in
            (mem2, rw e e2, target-AllPatched m ms h hs (later, sorted) mem mem1 mem2 target r rest)
        | inr passed_by ↦
            let (mem2, e2, rest) = rewrite_targets-AllPatched ms hs sorted mem in
            (
              mem2,
              rw (rewrite_target-other m mem passed_by) e2,
              other-AllPatched m ms mem mem2 passed_by rest,
            )
      ]

  -- When capstone starts and decodes only the bytes it is given, to instructions that are not empty
  -- and lie in them, with four bytes for `ecall`, and every `mprotect` is granted, then for a file
  -- of sorted lines in the format of proc(5), each with addresses below 2^63 and at most 4000 bytes
  -- behind the permissions, `rewrite_code` ends: in every executable range of libc that does not
  -- start at 0, each `ecall` of the linear sweep of the first memory is now `jalr gp, gp, 0` and
  -- the other bytes are as they were, and no byte outside these ranges is changed.
  pub rewrite_code-AllPatched :
      (ms : List Mapping)
      → All IsMapping ms
      → Sorted ms
      → (mem : Memory)
      → (mem' : Memory) × (rewrite_code cs mprotect (some (print_file ms)) mem ≡ some (ok mem'))
        × AllPatched cs ms mem mem'
  rewrite_code-AllPatched ms h sorted mem =
      let (mem', e, all) = rewrite_targets-AllPatched ms h sorted mem in
      (mem', rewrite_code-print_file cs mprotect ms h mem ∙ e, all)
