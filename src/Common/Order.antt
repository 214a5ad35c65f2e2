-- ===== src/Common/Order.antt =====
-- The order of the native numbers is well-founded.
use Prim.Native.Nat.{ℕ, zero, suc, ◌<◌}
use mathlib.Core.WellFounded.{Acc, WellFounded}
use native.Mathlib.Omega.{arith}

Acc_below : (k n : ℕ) → n < k → Acc ◌<◌ n
Acc_below zero n h = absurd (omega arith)
Acc_below (suc k) n h = Acc.intro n (λ m hm. Acc_below k m (omega arith))

pub lt_wf : WellFounded ◌<◌
lt_wf = record { apply = λ n. Acc_below (suc n) n (omega arith) }
