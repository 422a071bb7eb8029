-- ===== src/Math/Tests.antt =====
-- Division and remainder at concrete numbers: -7 by 2, and 7 by -2.
use lodtalk.Prelude.{◌≡◌, refl, arith, inr}
use lodtalk.Prelude.Int.{ℤ, pos, negsuc, ◌+ℤ◌, ◌*ℤ◌, ◌≤ℤ◌}
use lodtalk.Outcome.{ok}
use lodtalk.Math.{divide_round_neg}
use lodtalk.Math.Floor.{IsRemainder, Divides, divide-module, divide_wrong_sign}

divide-module_example : Divides (negsuc 6) (pos 2)
divide-module_example =
    divide-module (negsuc 6) (pos 2) (omega arith, omega arith) (omega arith, omega arith) refl
      (inr (omega arith))

divide_wrong_sign_example :
    (q : ℤ) × (divide_round_neg (pos 7) (negsuc 1) ≡ ok q)
    × (pos 0 ≤ℤ q)
    × (¬ ((r : ℤ) × IsRemainder r (negsuc 1) × (q *ℤ negsuc 1 +ℤ r ≡ pos 7)))
divide_wrong_sign_example =
    divide_wrong_sign (pos 7) (negsuc 1) (omega arith, omega arith) (omega arith, omega arith)
      (omega arith) (omega arith)
