-- ===== src/Hook/Frame.antt =====
-- Storing registers into slots of the frame and loading them back.
use vpoline.Common.{
  ℕ, zero, suc, ◌+◌, ◌%◌, ◌^◌, ◌≤◌, ◌<◌, ◌≡◌, ◌≢◌, refl, arith, Bool, ◌&&◌, true, false, ◌==◌, List,
  [], ◌∷◌, ◌++◌, Option, none, some, u64, ◌∙◌, sym, inl, inr, Bool-cases, ==_ne, and_parts,
  if◌then◌else◌,
}
use vpoline.Memory.{load, store}
use vpoline.Memory.Laws.{load-store_8, load-store_apart}
use vpoline.Hook.Lines.{Asm, Label, State, beq, beqz, jalr, j, ebreak, line, run_lines, set}

-- A register, and the offset of its slot.
abbrev pub Slots : Type 0
Slots = List (ℕ × ℕ)

-- The slots are aligned and lie in the frame of 304 bytes.
abbrev pub InFrame : Slots → Type 0
InFrame [] = Unit
InFrame ((r, o) ∷ l) = (o % 8 ≡ 0) × (o + 8 ≤ 304) × InFrame l

-- The register that is stored last into a slot.
abbrev pub stored : Slots → ℕ → Option ℕ
stored [] o = none
stored ((r, o') ∷ l) o = elim (stored l o) [
  | some q ↦ some q
  | none ↦ if o' == o then some r else none
]

-- The slot that is loaded last into a register.
abbrev pub loaded : Slots → ℕ → Option ℕ
loaded [] r = none
loaded ((r', o) ∷ l) r = elim (loaded l r) [
  | some q ↦ some q
  | none ↦ if r' == r then some o else none
]

-- All stores, and all loads.
abbrev pub store_all : Slots → State → State
store_all [] s = s
store_all ((r, o) ∷ l) s =
    store_all l (record s { mem = store 8 s.mem (u64 (s.regs 2 + o)) (s.regs r) })

abbrev pub load_all : Slots → State → State
load_all [] s = s
load_all ((r, o) ∷ l) s = load_all l (set s r (load 8 s.mem (u64 (s.regs 2 + o))))

-- The value behind an optional register or slot.
abbrev pub from_reg : Option ℕ → State → ℕ → ℕ
from_reg none s default = default
from_reg (some r) s default = s.regs r

pub store_all-regs : (l : Slots) (s : State) → (store_all l s).regs ≡ s.regs
store_all-regs [] s = refl
store_all-regs ((r, o) ∷ l) s =
    store_all-regs l (record s { mem = store 8 s.mem (u64 (s.regs 2 + o)) (s.regs r) })

-- One store before the others.
one_slot :
    (q : Option ℕ) (s : State) (r o o' : ℕ)
    → s.regs r < 2 ^ 64
    → s.regs 2 + 304 ≤ 2 ^ 64
    → o % 8 ≡ 0
    → o' % 8 ≡ 0
    → o + 8 ≤ 304
    → o' + 8 ≤ 304
    → let s' : State = record s { mem = store 8 s.mem (u64 (s.regs 2 + o')) (s.regs r) } in
      from_reg q s' (load 8 s'.mem (s.regs 2 + o))
      ≡ from_reg
          (elim q [ some p ↦ some p | none ↦ if o' == o then some r else none ])
          s
          (load 8 s.mem (s.regs 2 + o))
one_slot (some p) s r o o' small room al al' top top' = refl
one_slot none s r o o' small room al al' top top' =
    let e : u64 (s.regs 2 + o') ≡ s.regs 2 + o' = omega arith in
    elim (Bool-cases (o' == o)) [
      | inl same ↦
          let d : o' ≡ o = ground arith in
          rw (e, same, d) (load-store_8 s.mem (s.regs 2 + o) (s.regs r) ∙ omega arith)
      | inr apart ↦
          rw (e, apart)
            (load-store_apart 8 8 s.mem (s.regs 2 + o) (s.regs 2 + o') (s.regs r) (ground arith))
    ]

-- A slot holds the register that was stored last into it, or what it held before.
pub load-store_all :
    (l : Slots) (s : State) (o : ℕ)
    → InFrame l
    → ((r : ℕ) → s.regs r < 2 ^ 64)
    → s.regs 2 + 304 ≤ 2 ^ 64
    → o % 8 ≡ 0
    → o + 8 ≤ 304
    → load 8 (store_all l s).mem (s.regs 2 + o)
      ≡ from_reg (stored l o) s (load 8 s.mem (s.regs 2 + o))
load-store_all [] s o f small room al top = refl
load-store_all ((r, o') ∷ l) s o f small room al top =
    load-store_all l (record s { mem = store 8 s.mem (u64 (s.regs 2 + o')) (s.regs r) }) o f.2 small
      room al top
    ∙ one_slot (stored l o) s r o o' (small r) room al f.0 top f.1

-- The loads go to registers other than sp.
abbrev pub SparesSp : Slots → Type 0
SparesSp [] = Unit
SparesSp ((r, o) ∷ l) = (r ≢ 2) × SparesSp l

abbrev pub from_slot : Option ℕ → State → ℕ → ℕ
from_slot none s default = default
from_slot (some o) s default = load 8 s.mem (u64 (s.regs 2 + o))

pub load_all-mem : (l : Slots) (s : State) → (load_all l s).mem ≡ s.mem
load_all-mem [] s = refl
load_all-mem ((r, o) ∷ l) s = load_all-mem l (set s r (load 8 s.mem (u64 (s.regs 2 + o))))

one_load :
    (q : Option ℕ) (s : State) (r r' o : ℕ)
    → r' ≢ 2
    → let s' : State = set s r' (load 8 s.mem (u64 (s.regs 2 + o))) in
      from_slot q s' (s'.regs r)
      ≡ from_slot
          (elim q [ some p ↦ some p | none ↦ if r' == r then some o else none ])
          s
          (s.regs r)
one_load (some p) s r r' o n = rw (==_ne 2 r' (λ e. n (sym e)))
one_load none s r r' o n = elim (Bool-cases (r' == r)) [
  | inl same ↦ let back : (r == r') ≡ true = ground arith in rw (same, back)
  | inr apart ↦ let back : (r == r') ≡ false = ground arith in rw (apart, back)
]

-- A register holds the slot that was loaded last into it, or what it held before.
pub load_all-regs :
    (l : Slots) (s : State) (r : ℕ)
    → SparesSp l
    → (load_all l s).regs r ≡ from_slot (loaded l r) s (s.regs r)
load_all-regs [] s r f = refl
load_all-regs ((r', o) ∷ l) s r f =
    load_all-regs l (set s r' (load 8 s.mem (u64 (s.regs 2 + o)))) r f.1
    ∙ one_load (loaded l r) s r r' o f.0

abbrev pub is_line : Asm → Bool
is_line (beq r1 r2 l) = false
is_line (beqz r l) = false
is_line (jalr r) = false
is_line (j l) = false
is_line ebreak = false
is_line i = true

abbrev pub are_lines : List Asm → Bool
are_lines [] = true
are_lines (i ∷ is) = is_line i && are_lines is

module _ (symbol : ℕ) (callee : State → State) (text : Label → List Asm) where
  -- The effect of lines, in order.
  abbrev pub lines : List Asm → State → State
  lines [] s = s
  lines (i ∷ is) s = lines is (line symbol callee i s)

  run_line :
      (fuel : ℕ) (i : Asm) (is : List Asm) (s : State)
      → is_line i ≡ true
      → run_lines symbol callee text fuel (i ∷ is) s
        ≡ run_lines symbol callee text fuel is (line symbol callee i s)
  unfolding run_lines
  run_line fuel (beq r1 r2 l) is s h = cc
  run_line fuel (beqz r l) is s h = cc
  run_line fuel (jalr r) is s h = cc
  run_line fuel (j l) is s h = cc
  run_line fuel ebreak is s h = cc
  run_line zero _ is s h = refl
  run_line (suc fuel) _ is s h = refl

  -- Lines without jumps have their effects in order.
  pub run_lines-append :
      (fuel : ℕ) (is rest : List Asm) (s : State)
      → are_lines is ≡ true
      → run_lines symbol callee text fuel (is ++ rest) s
        ≡ run_lines symbol callee text fuel rest (lines is s)
  run_lines-append fuel [] rest s h = refl
  run_lines-append fuel (i ∷ is) rest s h =
      let (first, others) = and_parts (is_line i) (are_lines is) h in
      run_line fuel i (is ++ rest) s first
      ∙ run_lines-append fuel is rest (line symbol callee i s) others

  pub run-beq_false :
      (fuel r1 r2 : ℕ) (l : Label) (is : List Asm) (s : State)
      → (s.regs r1 == s.regs r2) ≡ false
      → run_lines symbol callee text (suc fuel) (beq r1 r2 l ∷ is) s
        ≡ run_lines symbol callee text (suc fuel) is s
  unfolding run_lines
  run-beq_false fuel r1 r2 l is s e = rw (e, run_lines)

  pub run-beq_true :
      (fuel r1 r2 : ℕ) (l : Label) (is : List Asm) (s : State)
      → (s.regs r1 == s.regs r2) ≡ true
      → run_lines symbol callee text (suc fuel) (beq r1 r2 l ∷ is) s
        ≡ run_lines symbol callee text fuel (text l) s
  unfolding run_lines
  run-beq_true fuel r1 r2 l is s e = rw (e, run_lines)

  pub run-beqz_false :
      (fuel r : ℕ) (l : Label) (is : List Asm) (s : State)
      → (s.regs r == 0) ≡ false
      → run_lines symbol callee text (suc fuel) (beqz r l ∷ is) s
        ≡ run_lines symbol callee text (suc fuel) is s
  unfolding run_lines
  run-beqz_false fuel r l is s e = rw (e, run_lines)

  pub run-beqz_true :
      (fuel r : ℕ) (l : Label) (is : List Asm) (s : State)
      → (s.regs r == 0) ≡ true
      → run_lines symbol callee text (suc fuel) (beqz r l ∷ is) s
        ≡ run_lines symbol callee text fuel (text l) s
  unfolding run_lines
  run-beqz_true fuel r l is s e = rw (e, run_lines)
