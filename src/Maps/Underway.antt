-- ===== src/Maps/Underway.antt =====
-- `rewrite_code` at any moment of its work, for the whole file.
use vpoline.Common.{
  ℕ, ◌+◌, ◌-◌, ◌≤◌, ◌<◌, ◌≡◌, refl, arith, Bool, true, false, ◌&&◌, List, ◌∷◌, ◌∙◌, sym, inl, inr,
  ◌⊎◌, All, All-imp, All-of_Mem, All-Mem, Bool-cases,
}
use vpoline.Common.Exit.{some-inj, ok-inj}
use vpoline.Memory.{Memory}
use vpoline.Rewrite.{Capstone, Mprotect}
use vpoline.Rewrite.Sweep.{IsCapstone}
use vpoline.Rewrite.Patched.{Rewritten}
use vpoline.Maps.Print.{Mapping, IsMapping}
use vpoline.Maps.Line.{is_target}
use vpoline.Maps.Patched.{
  Sorted, Apart, Rewritten-Apart, rewrite_target-Rewritten, rewrite_target-other,
}
use vpoline.Maps.Moments.{
  Moments, Underway, AllUnderway, Agree, Underway-after, Underway-before, Underway-start,
  loop_Between, Between-Underway, Between-Apart,
}

-- A range whose rewriting is done.
Rewritten-Underway :
    (cs : Capstone) (m : Mapping) (mem mem1 : Memory)
    → m.from_address < m.to_address
    → Rewritten cs m.from_address (m.to_address - m.from_address) mem mem1
    → Underway cs mem mem1 m
Rewritten-Underway cs m mem mem1 le r =
    let last : m.from_address + (m.to_address - m.from_address) - 1 ≡ m.to_address - 1 =
      omega arith in
    record {
      sites = r.sites;
      swept = rw (sym last) r.swept;
      inside = λ a e. omega (arith, r.inside a e);
      either = λ a e. inl (r.replaced a e);
      others = λ x low high. r.others x;
    }

-- The later ranges lie behind.
Sorted-Agree :
    (m : Mapping) (ms : List Mapping) (mem mem' : Memory)
    → All (λ n. m.to_address ≤ n.from_address) ms
    → ((x : ℕ) → m.to_address ≤ x → mem' x ≡ mem x)
    → All (λ n. Agree n mem mem') ms
Sorted-Agree m ms mem mem' later same =
    All-imp (λ n. m.to_address ≤ n.from_address) (λ n. Agree n mem mem')
      (λ n le x low high. same x (omega arith)) ms later

module _ (cs : Capstone) (is : IsCapstone cs) where
  -- Nothing has happened to any range.
  started : (ms : List Mapping) → All IsMapping ms → (mem : Memory) → AllUnderway cs ms mem mem
  started ms h mem = record {
    ranges =
        All-imp IsMapping (λ m. is_target m ≡ true → Underway cs mem mem m)
          (λ m i yes. Underway-start cs is mem m i) ms h;
    elsewhere = λ x out. refl;
  }

  -- The first range is at work.
  during :
      (m : Mapping) (ms : List Mapping)
      → IsMapping m
      → All IsMapping ms
      → All (λ n. m.to_address ≤ n.from_address) ms
      → (mem mem' : Memory) → is_target m ≡ true
      → Underway cs mem mem' m
      → ((x : ℕ) → (x < m.from_address) ⊎ (m.to_address ≤ x) → mem' x ≡ mem x)
      → AllUnderway cs (m ∷ ms) mem mem'
  during m ms h hs later mem mem' target here outside = record {
    ranges = (
      λ yes. here,
      All-of_Mem (λ n. is_target n ≡ true → Underway cs mem mem' n) ms
          (λ n e yes.
            Underway-after cs mem mem mem' n
              (All-Mem (λ n. Agree n mem mem') ms
                (Sorted-Agree m ms mem mem' later (λ x low. outside x (inr low))) e)
              (Underway-start cs is mem n (All-Mem IsMapping ms hs e))),
    );
    elsewhere = λ x (out, outs). outside x (out target);
  }

  -- The first range is done.
  afterwards :
      (m : Mapping) (ms : List Mapping)
      → IsMapping m
      → All IsMapping ms
      → All (λ n. m.to_address ≤ n.from_address) ms
      → (mem mem1 mem' : Memory) → is_target m ≡ true
      → Rewritten cs m.from_address (m.to_address - m.from_address) mem mem1
      → AllUnderway cs ms mem1 mem'
      → AllUnderway cs (m ∷ ms) mem mem'
  afterwards m ms h hs later mem mem1 mem' target r rest =
      let le : m.from_address < m.to_address = h.ordered in
      let outside = Rewritten-Apart cs m le mem mem1 r in
      record {
        ranges = (
          λ yes.
              Underway-after cs mem mem1 mem' m
                (λ x low high. rest.elsewhere x (
                  All-imp (λ n. m.to_address ≤ n.from_address) (Apart x)
                    (λ n behind yes'. inl (omega arith)) ms later))
                (Rewritten-Underway cs m mem mem1 le r),
          All-of_Mem (λ n. is_target n ≡ true → Underway cs mem mem' n) ms
              (λ n e yes.
                let i : IsMapping n = All-Mem IsMapping ms hs e in
                Underway-before cs is mem mem1 mem' n i.ordered
                  (All-Mem (λ n. Agree n mem mem1) ms
                    (Sorted-Agree m ms mem mem1 later (λ x low. outside x (inr low))) e)
                  (All-Mem (λ n. is_target n ≡ true → Underway cs mem1 mem' n) ms rest.ranges e
                    yes)),
        );
        elsewhere = λ x (out, outs). rest.elsewhere x outs ∙ outside x (out target);
      }

  -- The first line is no range of code of libc.
  passed_over :
      (m : Mapping) (ms : List Mapping) (mem mem' : Memory)
      → is_target m ≡ false
      → AllUnderway cs ms mem mem'
      → AllUnderway cs (m ∷ ms) mem mem'
  passed_over m ms mem mem' passed_by rest = record {
    ranges = ((λ yes. cc), rest.ranges);
    elsewhere = λ x (out, outs). rest.elsewhere x outs;
  }

  module _ (mprotect : Mprotect → Bool)
      (ready : (cs.cs_open && cs.cs_option_detail && cs.cs_option_mem && cs.cs_malloc) ≡ true)
      (granted : (request : Mprotect) → mprotect request ≡ true) where
    -- When capstone starts and decodes only the bytes it is given, to instructions that are not empty
    -- and lie in them, with four bytes for `ecall`, and every `mprotect` is granted, then for sorted
    -- lines of the file, each with addresses below 2^63, at every moment between two mappings or
    -- two passes of the loop: each `ecall` of the linear sweep of an executable range of libc still
    -- has its four bytes or is `jalr gp, gp, 0`, and no other byte is changed.
    pub Moments-AllUnderway :
        (ms : List Mapping)
        → All IsMapping ms
        → Sorted ms
        → (mem mem' : Memory) → Moments cs mprotect ms mem mem'
        → AllUnderway cs ms mem mem'
    Moments-AllUnderway ms h sorted _ _ (Moments.before _ mem) = started ms h mem
    Moments-AllUnderway _ h sorted _ _ (Moments.within m ms mem b mem' target r) =
        let t = loop_Between cs is m h.0 mem mem' b r in
        during m ms h.0 h.1 sorted.0 mem mem' target (Between-Underway cs is m h.0 mem mem' t)
          (Between-Apart cs is m h.0 mem mem' t)
    Moments-AllUnderway _ h sorted _ _ (Moments.behind m ms mem mem1 mem' e rest) =
        let all = Moments-AllUnderway ms h.1 sorted.1 mem1 mem' rest in
        elim (Bool-cases (is_target m)) [
          | inl target ↦
              let (mem2, e2, r) =
                rewrite_target-Rewritten cs is mprotect ready granted m h.0 target mem in
              let same : mem2 ≡ mem1 = ok-inj (some-inj (sym e2 ∙ e)) in
              afterwards m ms h.0 h.1 sorted.0 mem mem1 mem' target (rw (← same) r) all
          | inr passed_by ↦
              let e2 = rewrite_target-other cs is mprotect ready granted m mem passed_by in
              let same : mem ≡ mem1 = ok-inj (some-inj (sym e2 ∙ e)) in
              passed_over m ms mem mem' passed_by (rw (same) all)
        ]
