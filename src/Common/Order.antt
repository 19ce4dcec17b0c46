-- ===== src/Common/Order.antt =====
-- Recursion on a falling number, and that its proof of accessibility does not matter.
use Prim.Native.Nat.{ℕ, zero, suc, ◌<◌}
use mathlib.Core.Path.{◌≡◌}
use mathlib.Core.WellFounded.{Acc, WellFounded, Acc-prop}
use native.Mathlib.Omega.{arith}

acc_upto : (k n : ℕ) → n < k → Acc ◌<◌ n
acc_upto zero n h = absurd (omega arith)
acc_upto (suc k) n h = Acc.intro n (λ m below. acc_upto k m (omega arith))

unfoldable pub lt_wf : WellFounded ◌<◌
unfolding acc_upto
lt_wf = record { apply = λ n. acc_upto (suc n) n (omega arith) }

pub acc_unique : (n : ℕ) (a b : Acc ◌<◌ n) → a ≡ b
acc_unique n a b = Acc-prop a b
