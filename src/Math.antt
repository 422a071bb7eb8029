-- ===== src/Math.antt =====
-- include/Lodtalk/Math.hpp: division and remainder of the Smalltalk operations `//` and `\\`.
mod Floor
mod Signs
mod Tests
use lodtalk.Prelude.{ℕ, ◌-◌, ◌^◌, Bool, true, false, ltb, if◌then◌else◌}
use lodtalk.Prelude.Int.{ℤ, pos, negsuc, ◌+ℤ◌, ◌-ℤ◌, -ℤ◌, ltb_ℤ, leb_ℤ, tdiv, trem}
use lodtalk.Outcome.{Outcome, ok, abort, assertion, signed_overflow, ◌>>=◌}
use lodtalk.Assembler.Sizes.{is_zero}

-- An `intptr_t` has 64 bits.
unfoldable pub fits_word : ℤ → Bool
fits_word (pos n) = ltb n (2 ^ 63)
fits_word (negsuc n) = ltb n (2 ^ 63)

-- The result of an operation on `SmallIntegerValue`s, which is undefined where it does not fit.
unfoldable pub checked : ℤ → Outcome ℤ
checked z = if fits_word z then ok z else abort signed_overflow

-- `-(positive + other - 1) / divisor`. The minus sign binds the sum before the division.
unfoldable pub negated_quotient : ℤ → ℤ → ℤ → Outcome ℤ
unfolding ◌+ℤ◌ ◌-ℤ◌ -ℤ◌ tdiv
negated_quotient positive other divisor = do
  sum ← checked (positive +ℤ other)
  less ← checked (sum -ℤ pos 1)
  negated ← checked (-ℤ◌ less)
  checked (tdiv negated divisor)

-- `divideRoundNeg`
unfoldable pub divide_round_neg : ℤ → ℤ → Outcome ℤ
unfolding -ℤ◌ tdiv
divide_round_neg dividend divisor =
    if is_zero divisor
    then abort assertion
    else if leb_ℤ (pos 0) dividend
    then (if ltb_ℤ (pos 0) divisor then checked (tdiv dividend divisor) else (do
      positive_divisor ← checked (-ℤ◌ divisor)
      negated_quotient dividend positive_divisor divisor))
    else (do
      positive_dividend ← checked (-ℤ◌ dividend)
      (if ltb_ℤ (pos 0) divisor
          then negated_quotient positive_dividend divisor divisor
          else checked (tdiv dividend divisor)))

-- `moduleRoundNeg`. The remainder is undefined where the quotient does not fit.
unfoldable pub module_round_neg : ℤ → ℤ → Outcome ℤ
unfolding ◌+ℤ◌ tdiv trem
module_round_neg dividend divisor = if is_zero divisor then abort assertion else (do
  quotient ← checked (tdiv dividend divisor)
  let result = trem dividend divisor
  (if ltb_ℤ divisor (pos 0)
      then (if ltb_ℤ (pos 0) result then checked (result +ℤ divisor) else ok result)
      else (if ltb_ℤ result (pos 0) then checked (result +ℤ divisor) else ok result)))
