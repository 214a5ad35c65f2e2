-- ===== src/Interception/Site.antt =====
-- The instruction in place of an `ecall`, and the `ecall` itself.
use vpoline.Common.{ℕ, ◌+◌, ◌/◌, ◌*◌, ◌%◌, ◌^◌, ◌<◌, ◌≡◌, refl, arith, some, u64, ◌∙◌, ap, ap₂}
use vpoline.Memory.{update}
use vpoline.Machine.{State, Kernel, decode, jalr, ecall, go, set, run}
use vpoline.Machine.Straight.{run_step}
use vpoline.Patcher.Return.{syscall}
use vpoline.Rewrite.{jalr_gp}

-- The caller behind `jalr gp, gp, 0`: at the address in gp, which receives the one behind the
-- instruction.
abbrev pub called : State → State
called s = record s { pc = s.regs 3; regs = update s.regs 3 (s.pc + 4) }

jalr_gp-decode : decode jalr_gp ≡ jalr 3 3 0
unfolding decode
jalr_gp-decode = refl

pub site_step :
    (k : Kernel) (fetch : ℕ → ℕ) (s : State)
    → fetch s.pc ≡ jalr_gp
    → s.regs 3 < 2 ^ 64
    → s.regs 3 % 2 ≡ 0
    → s.pc + 4 < 2 ^ 64
    → run k fetch 1 s ≡ some (called s)
unfolding run
site_step k fetch s word small even below =
    let target : u64 (s.regs 3 + 0) / 2 * 2 ≡ s.regs 3 = omega arith in
    let link : u64 (s.pc + 4) ≡ s.pc + 4 = omega arith in
    run_step k fetch 0 s (jalr 3 3 0) (ap decode word ∙ jalr_gp-decode)
      (ap₂ (λ (a b : ℕ). some (go a (set s 3 b))) target link)

-- The caller behind the `ecall` that the kernel serves.
abbrev pub served : Kernel → State → State
served k s = go (s.pc + 4) (syscall k s)

ecall-decode : decode 0x73 ≡ ecall
unfolding decode
ecall-decode = refl

pub ecall_step :
    (k : Kernel) (fetch : ℕ → ℕ) (s : State)
    → fetch s.pc ≡ 0x73
    → s.pc + 4 < 2 ^ 64
    → run k fetch 1 s ≡ some (served k s)
unfolding run
ecall_step k fetch s word below =
    let link : u64 (s.pc + 4) ≡ s.pc + 4 = omega arith in
    run_step k fetch 0 s ecall (ap decode word ∙ ecall-decode)
      (ap (λ (a : ℕ). some (go a (syscall k s))) link)
