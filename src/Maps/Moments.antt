-- ===== src/Maps/Moments.antt =====
-- The memory while `rewrite_code` is at work.
use mathlib.Core.List.{Memᴰ}
use vpoline.Common.{
  ℕ, ◌+◌, ◌-◌, ◌^◌, ◌≤◌, ◌<◌, ◌≡◌, arith, Bool, true, List, ◌∷◌, some, ◌∙◌, inl, inr, ◌⊎◌, All, u64,
  sub64,
}
use vpoline.Common.Exit.{ok}
use vpoline.Memory.{Memory, load}
use vpoline.Memory.Laws.{load_ext}
use vpoline.Rewrite.{Capstone, Mprotect, InterceptDisasmContext, jalr_gp}
use vpoline.Rewrite.Sweep.{IsCapstone, Sweeps}
use vpoline.Rewrite.Patched.{Outside}
use vpoline.Rewrite.Moments.{Reaches}
use vpoline.Rewrite.Between.{Between, Reaches-Between}
use vpoline.Maps.Print.{Mapping, IsMapping}
use vpoline.Maps.Line.{is_target, rewrite_target}
use vpoline.Maps.Patched.{Apart, Sweeps-ext}

-- The context of the disassembler for a mapping.
abbrev pub context_of : Mapping → InterceptDisasmContext
context_of m = record {
  begin_address = m.from_address;
  end_address = sub64 (u64 (m.from_address + (m.to_address - m.from_address))) 1;
}

-- From a memory before the mappings to one between two of them, or between two passes of the loop
-- over one of them.
pub data Moments (cs : Capstone) (mprotect : Mprotect → Bool)
    : List Mapping → Memory → Memory → Type 0 where
  before : (ms : List Mapping) (mem : Memory) → Moments cs mprotect ms mem mem
  within :
      (m : Mapping) (ms : List Mapping) (mem : Memory) (b : ℕ) (mem' : Memory)
      → is_target m ≡ true
      → Reaches cs (context_of m) m.from_address mem b mem'
      → Moments cs mprotect (m ∷ ms) mem mem'
  behind :
      (m : Mapping) (ms : List Mapping) (mem mem1 mem' : Memory)
      → rewrite_target cs mprotect m mem ≡ some (ok mem1)
      → Moments cs mprotect ms mem1 mem'
      → Moments cs mprotect (m ∷ ms) mem mem'

-- A range in the middle of the work, against the first memory: each `ecall` of its sweep is as it was
-- or replaced as a whole, and the other bytes of the range are as they were.
pub record Underway (cs : Capstone) (mem mem' : Memory) (m : Mapping) : Type 0 where
  pub sites : List ℕ
  pub swept : Sweeps cs mem (m.to_address - 1) m.from_address sites
  pub inside : (a : ℕ) → Memᴰ a sites → (m.from_address ≤ a) × (a + 4 ≤ m.to_address)
  pub either : (a : ℕ) → Memᴰ a sites → (load 4 mem' a ≡ jalr_gp) ⊎ (load 4 mem' a ≡ load 4 mem a)
  pub others : (x : ℕ) → m.from_address ≤ x → x < m.to_address → Outside sites x → mem' x ≡ mem x

-- This holds of every executable range of libc, and no byte outside them is changed.
pub record AllUnderway (cs : Capstone) (ms : List Mapping) (mem mem' : Memory) : Type 0 where
  pub ranges : All (λ m. is_target m ≡ true → Underway cs mem mem' m) ms
  pub elsewhere : (x : ℕ) → All (Apart x) ms → mem' x ≡ mem x

abbrev pub Agree : Mapping → Memory → Memory → Type 0
Agree m mem mem' = (x : ℕ) → m.from_address ≤ x → x < m.to_address → mem' x ≡ mem x

Agree-load :
    (m : Mapping) (mem mem' : Memory) (a : ℕ)
    → Agree m mem mem'
    → (m.from_address ≤ a) × (a + 4 ≤ m.to_address)
    → load 4 mem' a ≡ load 4 mem a
Agree-load m mem mem' a same i = load_ext 4 mem' mem a (λ x p q. same x (omega arith) (omega arith))

-- A later memory that agrees on the range.
pub Underway-after :
    (cs : Capstone) (mem mem1 mem2 : Memory) (m : Mapping)
    → Agree m mem1 mem2
    → Underway cs mem mem1 m
    → Underway cs mem mem2 m
Underway-after cs mem mem1 mem2 m same t = record {
  sites = t.sites;
  swept = t.swept;
  inside = t.inside;
  either = λ a e.
      let here = Agree-load m mem1 mem2 a same (t.inside a e) in
      elim (t.either a e) [ inl new ↦ inl (here ∙ new) | inr old ↦ inr (here ∙ old) ];
  others = λ x low high out. same x low high ∙ t.others x low high out;
}

-- An earlier memory that agrees on the range.
pub Underway-before :
    (cs : Capstone)
    → IsCapstone cs
    → (mem mem1 mem2 : Memory) (m : Mapping) → m.from_address < m.to_address
    → Agree m mem mem1
    → Underway cs mem1 mem2 m
    → Underway cs mem mem2 m
Underway-before cs is mem mem1 mem2 m le same t = record {
  sites = t.sites;
  swept =
      Sweeps-ext cs is mem1 mem (m.to_address - 1) m.from_address t.sites
        (λ x low high. same x low (omega arith)) t.swept;
  inside = t.inside;
  either = λ a e. elim (t.either a e) [
    | inl new ↦ inl new
    | inr old ↦ inr (old ∙ Agree-load m mem mem1 a same (t.inside a e))
  ];
  others = λ x low high out. t.others x low high out ∙ same x low high;
}

module _ (cs : Capstone) (is : IsCapstone cs) (m : Mapping) (h : IsMapping m)
    (mem mem' : Memory) where
  end_lem : (context_of m).end_address ≡ m.to_address - 1
  end_lem =
      let (le, small) : (m.from_address < m.to_address) × (m.to_address < 2 ^ 63) =
        (h.ordered, h.to_small) in
      omega arith

  pub loop_Between :
      (b : ℕ)
      → Reaches cs (context_of m) m.from_address mem b mem'
      → Between cs mem mem' m.from_address (m.to_address - 1)
  loop_Between b r =
      let (le, small) : (m.from_address < m.to_address) × (m.to_address < 2 ^ 63) =
        (h.ordered, h.to_small) in
      rw (← end_lem)
        (Reaches-Between cs is (context_of m) (omega (arith, end_lem)) mem m.from_address b mem' r)

  module _ (t : Between cs mem mem' m.from_address (m.to_address - 1)) where
    pub Between-Underway : Underway cs mem mem' m
    Between-Underway = record {
      sites = t.sites;
      swept = t.swept;
      inside =
          λ a e. let le : m.from_address < m.to_address = h.ordered in omega (arith, t.inside a e);
      either = t.either;
      others = λ x low high. t.others x;
    }

    pub Between-Apart : (x : ℕ) → (x < m.from_address) ⊎ (m.to_address ≤ x) → mem' x ≡ mem x
    Between-Apart x (inl under) = t.others x (λ a e. inl (omega (arith, t.inside a e)))
    Between-Apart x (inr over) =
        let le : m.from_address < m.to_address = h.ordered in
        t.others x (λ a e. inr (omega (arith, t.inside a e)))

-- Nothing has happened.
pub Underway-start :
    (cs : Capstone)
    → IsCapstone cs
    → (mem : Memory) (m : Mapping) → IsMapping m
    → Underway cs mem mem m
Underway-start cs is mem m h =
    Between-Underway cs is m h mem mem (loop_Between cs is m h mem mem m.from_address Reaches.start)
