-- ===== src/Direct/Called.antt =====
-- What the kernel sees of a call of `syscall_no_intercept`.
use vpoline.Common.{ℕ, ◌+◌, ◌/◌, ◌*◌, ◌≤◌, ◌<◌, ◌≡◌, ◌⊎◌, refl, arith, ◌∷◌, some}
use vpoline.Machine.{State, Kernel}
use vpoline.Direct.{syscall_no_intercept, run_direct}

-- One system call with the number in a0 and the arguments in a1 to a6, and the return to the caller:
-- its result is in a0, and no register but those of the call is changed.
pub record CallsKernel (k : Kernel) (s u : State) : Type 0 where
  pub registers : ℕ → ℕ
  pub number : registers 17 ≡ s.regs 10
  pub arguments : (i : ℕ) → i < 6 → registers (10 + i) ≡ s.regs (11 + i)
  pub others : (r : ℕ) → (r < 10) ⊎ ((r ≡ 16) ⊎ (18 ≤ r)) → registers r ≡ s.regs r
  pub calls : u.calls ≡ registers ∷ s.calls
  pub result : u.regs 10 ≡ k.result registers s.mem
  pub written : u.mem ≡ k.memory registers s.mem
  pub address : u.pc ≡ s.regs 1 / 2 * 2
  pub kept : (r : ℕ) → (r < 10) ⊎ ((r ≡ 16) ⊎ (18 ≤ r)) → u.regs r ≡ s.regs r

-- For every kernel and every state, `syscall_no_intercept` makes exactly one system call, with the
-- number in a0 and the arguments in a1 to a6, and returns to the address in ra, its lowest bit
-- cleared, with the result of the kernel in a0; sp, ra, gp and every other register but a0 to a5
-- and a7 are as before.
pub syscall_no_intercept-CallsKernel :
    (k : Kernel) (s : State)
    → (u : State) × (run_direct k syscall_no_intercept s ≡ some u) × CallsKernel k s u
unfolding run_direct
syscall_no_intercept-CallsKernel k s = (
  _,
  refl,
  record {
    registers = _;
    number = refl;
    arguments = λ i h. ground arith;
    others = λ r h. ground arith;
    calls = refl;
    result = refl;
    written = refl;
    address = refl;
    kept = λ r h. ground arith;
  },
)
