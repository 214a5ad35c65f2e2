-- ===== src/Patcher/Return.antt =====
-- src/patcher.c: the three return paths that `setup_return` writes.
use vpoline.Common.{
  ℕ, suc, ◌+◌, ◌*◌, ◌/◌, ◌%◌, ◌^◌, ◌<◌, ◌≡◌, refl, arith, List, [], ◌∷◌, some, u64, ◌∙◌, ap, ap₂,
  get_elem?, drop,
}
use vpoline.Memory.{load, update}
use vpoline.Machine.{Insn, addi, ld, jal, jalr, ecall, State, Kernel, decode, go, set, run}
use vpoline.Machine.Straight.{steps, run_straight, run_step}
use vpoline.Memory.Laws.{IsBytes, load-lt}
use vpoline.Patcher.{return_sequence}
use vpoline.Patcher.Words.{Holds, Holds-get, Holds-drop, Decodes, Code-of_words}

-- The return address and t0 in the frame.
abbrev pub frame_ra : State → ℕ
frame_ra s = load 8 s.mem (u64 (s.regs 2 + 288))

abbrev pub frame_t0 : State → ℕ
frame_t0 s = load 8 s.mem (u64 (s.regs 2 + 0))

-- gp and t0 are loaded from the frame, and the frame is dropped.
abbrev pub unwind : State → State
unwind s = record s {
  regs = update (update (update s.regs 3 (frame_ra s)) 5 (frame_t0 s)) 2 (u64 (s.regs 2 + 304));
}

-- The system call with the registers as they are.
abbrev pub syscall : Kernel → State → State
syscall k s = record s {
  regs = update s.regs 10 (k.result s.regs s.mem);
  mem = k.memory s.regs s.mem;
  calls = s.regs ∷ s.calls;
}

-- The jump to the address in gp, which receives the address behind the sequence.
abbrev pub leave : (gp : ℕ) → State → State
leave gp s = record s { pc = s.regs 3 / 2 * 2; regs = update s.regs 3 gp }

abbrev epilogue : List Insn
epilogue = ld 3 2 288 ∷ ld 5 2 0 ∷ addi 2 2 304 ∷ []

-- The formats of the words.
epilogue-Decodes : (ws : List ℕ) → Decodes (0x1201_3183 ∷ 0x0001_3283 ∷ 0x1301_0113 ∷ ws) epilogue
unfolding decode
epilogue-Decodes ws = (refl, refl, (refl, refl, (refl, refl, tt)))

jal_40 : decode 0x0280_006f ≡ jal 0 40
unfolding decode
jal_40 = refl

jal_20 : decode 0x0140_006f ≡ jal 0 20
unfolding decode
jal_20 = refl

ecall_word : decode 0x73 ≡ ecall
unfolding decode
ecall_word = refl

jalr_word : decode 0x0001_81e7 ≡ jalr 3 3 0
unfolding decode
jalr_word = refl

module _ (k : Kernel) (fetch : ℕ → ℕ) (base : ℕ) (fits : base + 56 < 2 ^ 64)
    (words : Holds fetch base return_sequence) where
  at :
      (i w : ℕ) {insn : Insn}
      → get_elem? return_sequence i ≡ some w
      → decode (w % 2 ^ 32) ≡ insn
      → decode (fetch (base + 4 * i)) ≡ insn
  at i w e d = ap decode (Holds-get fetch base return_sequence i w words e) ∙ d

  -- The last instruction, at any state.
  last_step :
      (s : State)
      → s.regs 3 < 2 ^ 64
      → run k fetch 1 (go (base + 52) s) ≡ some (leave (base + 56) s)
  unfolding run
  last_step s small =
      let target : u64 (s.regs 3 + 0) ≡ s.regs 3 = omega arith in
      let link : u64 (base + 52 + 4) ≡ base + 56 = omega arith in
      run_step k fetch 0 (go (base + 52) s) (jalr 3 3 0) (at 13 0x0001_81e7 refl jalr_word)
        (ap₂ (λ (a b : ℕ). some (go (a / 2 * 2) (set s 3 b))) target link)

  -- The three instructions that unwind the frame, at word `i`.
  unwind-steps :
      (i n from to : ℕ) (s : State)
      → from ≡ base + 4 * i
      → to ≡ base + 4 * i + 12
      → Decodes (drop i return_sequence) epilogue
      → i < 10
      → run k fetch (steps epilogue n) (go from s) ≡ run k fetch n (go to (unwind s))
  unwind-steps i n from to s p q d h =
      rw (p, q)
        (run_straight k fetch epilogue n (go (base + 4 * i) s)
          (Code-of_words fetch (base + 4 * i) (drop i return_sequence) epilogue
            (Holds-drop fetch i base return_sequence words) d)
          (omega arith))

  -- The jump to the last instruction.
  jump_step :
      (i n offset from : ℕ) (s : State)
      → from ≡ base + 4 * i
      → decode (fetch (base + 4 * i)) ≡ jal 0 offset
      → 4 * i + offset ≡ 52
      → run k fetch (suc n) (go from s) ≡ run k fetch n (go (base + 52) s)
  jump_step i n offset from s p d e =
      let target : u64 (base + 4 * i + offset) ≡ base + 52 = omega arith in
      rw p (
        run_step k fetch n (go (base + 4 * i) s) (jal 0 offset) d
          (ap (λ (a : ℕ). some (go a s)) target))

  call_step :
      (i n from to : ℕ) (s : State)
      → from ≡ base + 4 * i
      → to ≡ base + 4 * i + 4
      → decode (fetch (base + 4 * i)) ≡ ecall
      → i < 13
      → run k fetch (suc n) (go from s) ≡ run k fetch n (go to (syscall k s))
  call_step i n from to s p q d h =
      let next : u64 (base + 4 * i + 4) ≡ base + 4 * i + 4 = omega arith in
      rw (p, q)
        (run_step k fetch n (go (base + 4 * i) s) ecall d
          (ap (λ (a : ℕ). some (go a (syscall k s))) next))

  frame_ra-lt : (s : State) → IsBytes s.mem → frame_ra s < 2 ^ 64
  frame_ra-lt s b = load-lt 8 s.mem (u64 (s.regs 2 + 288)) b

  pub handled_steps :
      (s : State)
      → frame_ra s < 2 ^ 64
      → run k fetch 5 (go base s) ≡ some (leave (base + 56) (unwind s))
  handled_steps s small =
      unwind-steps 0 2 base (base + 12) s (omega arith) (omega arith) (epilogue-Decodes rest)
        (omega arith)
      ∙ jump_step 3 1 40 (base + 12) (unwind s) refl (at 3 0x0280_006f refl jal_40) refl
      ∙ last_step (unwind s) small
    where
      rest : List ℕ
      rest = drop 3 return_sequence

  -- The path for handled calls, at the first word: in 5 instructions gp and t0 are loaded from the
  -- frame, the frame is dropped, and control passes to the address that was in the frame with gp
  -- behind the sequence. No system call is made.
  pub run-handled_path :
      (s : State) → IsBytes s.mem → run k fetch 5 (go base s) ≡ some (leave (base + 56) (unwind s))
  run-handled_path s b = handled_steps s (frame_ra-lt s b)

  pub forwarded_steps :
      (s : State)
      → frame_ra (syscall k s) < 2 ^ 64
      → run k fetch 6 (go (base + 16) s) ≡ some (leave (base + 56) (unwind (syscall k s)))
  forwarded_steps s small =
      call_step 4 5 (base + 16) (base + 20) s refl (omega arith) (at 4 0x73 refl ecall_word)
        (omega arith)
      ∙ unwind-steps 5 2 (base + 20) (base + 32) (syscall k s) refl (omega arith)
          (epilogue-Decodes rest) (omega arith)
      ∙ jump_step 8 1 20 (base + 32) (unwind (syscall k s)) refl (at 8 0x0140_006f refl jal_20) refl
      ∙ last_step (unwind (syscall k s)) small
    where
      rest : List ℕ
      rest = drop 8 return_sequence

  -- The path for forwarded calls, at the fifth word: the system call is made with the registers as
  -- they are, and then in 5 instructions the frame is unwound as on the path for handled calls.
  pub run-forwarded_path :
      (s : State)
      → IsBytes (syscall k s).mem
      → run k fetch 6 (go (base + 16) s) ≡ some (leave (base + 56) (unwind (syscall k s)))
  run-forwarded_path s b = forwarded_steps s (frame_ra-lt (syscall k s) b)

  pub clone_steps :
      (s : State)
      → frame_ra s < 2 ^ 64
      → run k fetch 5 (go (base + 36) s) ≡ some (leave (base + 56) (syscall k (unwind s)))
  clone_steps s small =
      unwind-steps 9 2 (base + 36) (base + 48) s refl (omega arith) (epilogue-Decodes rest)
        (omega arith)
      ∙ call_step 12 1 (base + 48) (base + 52) (unwind s) refl (omega arith)
          (at 12 0x73 refl ecall_word) (omega arith)
      ∙ last_step (syscall k (unwind s)) small
    where
      rest : List ℕ
      rest = drop 12 return_sequence

  -- The path for clone, at the tenth word: the frame is unwound first, so that the system call is
  -- made with the restored gp, t0 and sp.
  pub run-clone_path :
      (s : State)
      → IsBytes s.mem
      → run k fetch 5 (go (base + 36) s) ≡ some (leave (base + 56) (syscall k (unwind s)))
  run-clone_path s b = clone_steps s (frame_ra-lt s b)
