-- ===== src/Math/Signs.antt =====
-- The results of `divideRoundNeg` and `moduleRoundNeg` of include/Lodtalk/Math.hpp by the signs of the
-- operands, where nothing overflows.
use lodtalk.Prelude.{
  ℕ, zero, suc, ◌+◌, ◌-◌, ◌/◌, ◌%◌, ◌^◌, ◌<◌, ◌≡◌, refl, arith, true, false, ◌==◌, if◌then◌else◌,
}
use native.Mathlib.Nat.{div-le_self, mod-lt}
use lodtalk.Prelude.Int.{ℤ, pos, negsuc, ◌+ℤ◌, ◌-ℤ◌, -ℤ◌, neg_of_nat, ltb_ℤ, leb_ℤ, tdiv, trem}
use lodtalk.Outcome.{ok}
use lodtalk.Assembler.Sizes.{is_zero}
use lodtalk.Math.{checked, fits_word, negated_quotient, divide_round_neg, module_round_neg}

nonzero : (b : ℕ) → is_zero (pos (suc b)) ≡ false
nonzero b = ground arith

positive : (b : ℕ) → ltb_ℤ (pos 0) (pos (suc b)) ≡ true
positive b = ground arith

not_negative : (n : ℕ) → leb_ℤ (pos 0) (pos n) ≡ true
not_negative n = ground arith

negative : (n : ℕ) → leb_ℤ (pos 0) (negsuc n) ≡ false
negative n = ground arith

-- Nothing overflows where the result fits.
checked-pos : (n : ℕ) → n < 2 ^ 63 → checked (pos n) ≡ ok (pos n)
unfolding checked fits_word
checked-pos n h = ground arith

checked-negsuc : (n : ℕ) → n < 2 ^ 63 → checked (negsuc n) ≡ ok (negsuc n)
unfolding checked fits_word
checked-negsuc n h = ground arith

checked-neg : (n : ℕ) → n < 2 ^ 63 → checked (neg_of_nat n) ≡ ok (neg_of_nat n)
checked-neg zero h = checked-pos 0 h
checked-neg (suc n) h =
    let e : neg_of_nat (suc n) ≡ negsuc n = ground arith in rw e (checked-negsuc n (omega arith))

negate : (n : ℕ) → -ℤ◌ (negsuc n) ≡ pos (suc n)
unfolding -ℤ◌
negate n = ground arith

negate_pos : (n : ℕ) → -ℤ◌ (pos n) ≡ neg_of_nat n
unfolding -ℤ◌
negate_pos n = ground arith

sum : (m k : ℕ) → pos m +ℤ pos k ≡ pos (m + k)
unfolding ◌+ℤ◌
sum m k = ground arith

less_one : (m k : ℕ) → pos (m + suc k) -ℤ pos 1 ≡ pos (m + k)
unfolding ◌-ℤ◌ ◌+ℤ◌ -ℤ◌
less_one m k = ground arith

negated_quotient-run :
    (m k : ℕ) (divisor : ℤ)
    → m + suc k < 2 ^ 63
    → negated_quotient (pos m) (pos (suc k)) divisor ≡ checked (tdiv (neg_of_nat (m + k)) divisor)
unfolding negated_quotient
negated_quotient-run m k divisor h =
    rw
      (
        sum m (suc k),
        checked-pos (m + suc k) h,
        less_one m k,
        checked-pos (m + k) (omega arith),
        negate_pos (m + k),
        checked-neg (m + k) (omega arith),
      )
      refl

-- The quotients by a positive and by a negative divisor.
neg_div : (n b : ℕ) → tdiv (neg_of_nat n) (pos (suc b)) ≡ neg_of_nat (n / suc b)
unfolding tdiv
neg_div zero b = ground arith
neg_div (suc n) b = let e : neg_of_nat (suc n) ≡ negsuc n = ground arith in rw e refl

neg_div_neg : (n b : ℕ) → tdiv (neg_of_nat n) (negsuc b) ≡ pos (n / suc b)
unfolding tdiv
neg_div_neg zero b = ground arith
neg_div_neg (suc n) b = let e : neg_of_nat (suc n) ≡ negsuc n = ground arith in rw e refl

-- Half of the range of a word: the values of small integers.
abbrev pub half : ℕ
half = 2 ^ 62

-- The remainder of a positive divisor is moved up.
moved_up :
    (m b : ℕ)
    → m < suc b
    → b < half
    → (if ltb_ℤ (neg_of_nat m) (pos 0)
        then checked (neg_of_nat m +ℤ pos (suc b))
        else ok (neg_of_nat m))
      ≡ ok (pos (if m == 0 then 0 else suc b - m))
moved_up zero b lt small = ground arith
moved_up (suc m) b lt small =
    let e : neg_of_nat (suc m) ≡ negsuc m = ground arith in
    let up : negsuc m +ℤ pos (suc b) ≡ pos (suc b - suc m) = unfold ◌+ℤ◌ in ground arith in
    let below : ltb_ℤ (negsuc m) (pos 0) ≡ true = ground arith in
    let test : (suc m == 0) ≡ false = ground arith in
    rw (e, below, up, test) (checked-pos (suc b - suc m) (omega arith))

-- The quotients and remainders by the signs of the operands.
module _ (n b : ℕ) (small : n < half) (small' : b < half) where
  pub divide-pos : divide_round_neg (pos n) (pos (suc b)) ≡ ok (pos (n / suc b))
  unfolding divide_round_neg tdiv
  divide-pos =
      rw
        (
          nonzero b,
          not_negative n,
          positive b,
          checked-pos (n / suc b) (omega (arith, div-le_self n (suc b))),
        )
        refl

  pub divide-neg_pos :
      suc b < half
      → divide_round_neg (negsuc n) (pos (suc b)) ≡ ok (neg_of_nat ((n + suc b) / suc b))
  unfolding divide_round_neg
  divide-neg_pos h =
      let same : suc n + b ≡ n + suc b = omega arith in
      rw
        (
          nonzero b,
          negative n,
          negate n,
          checked-pos (suc n) (omega arith),
          positive b,
          negated_quotient-run (suc n) b (pos (suc b)) (omega arith),
          same,
          neg_div (n + suc b) b,
          checked-neg ((n + suc b) / suc b) (omega (arith, div-le_self (n + suc b) (suc b))),
        )
        refl

  pub divide-neg : divide_round_neg (negsuc n) (negsuc b) ≡ ok (pos (suc n / suc b))
  unfolding divide_round_neg tdiv
  divide-neg =
      let below : ltb_ℤ (pos 0) (negsuc b) ≡ false = ground arith in
      rw
        (
          negative n,
          negate n,
          checked-pos (suc n) (omega arith),
          below,
          checked-pos (suc n / suc b) (omega (arith, div-le_self (suc n) (suc b))),
        )
        refl

  pub divide-pos_neg : divide_round_neg (pos n) (negsuc b) ≡ ok (pos ((n + b) / suc b))
  unfolding divide_round_neg
  divide-pos_neg =
      let below : ltb_ℤ (pos 0) (negsuc b) ≡ false = ground arith in
      rw
        (
          not_negative n,
          below,
          negate b,
          checked-pos (suc b) (omega arith),
          negated_quotient-run n b (negsuc b) (omega arith),
          neg_div_neg (n + b) b,
          checked-pos ((n + b) / suc b) (omega (arith, div-le_self (n + b) (suc b))),
        )
        refl

  pub module-pos : module_round_neg (pos n) (pos (suc b)) ≡ ok (pos (n % suc b))
  unfolding module_round_neg tdiv trem
  module-pos =
      rw (nonzero b, checked-pos (n / suc b) (omega (arith, div-le_self n (suc b)))) (ground arith)

  pub module-neg : module_round_neg (negsuc n) (negsuc b) ≡ ok (neg_of_nat (suc n % suc b))
  unfolding module_round_neg tdiv trem
  module-neg =
      rw (checked-pos (suc n / suc b) (omega (arith, div-le_self (suc n) (suc b)))) (ground arith)

  -- A dividend below 0 and a divisor above: the remainder, 0 or moved up.
  pub module-neg_pos :
      module_round_neg (negsuc n) (pos (suc b))
      ≡ ok (pos (if suc n % suc b == 0 then 0 else suc b - suc n % suc b))
  unfolding module_round_neg tdiv trem
  module-neg_pos =
      let bound : suc n % suc b < suc b = mod-lt (suc n) (omega arith) in
      let above : ltb_ℤ (pos (suc b)) (pos 0) ≡ false = ground arith in
      rw
        (nonzero b, checked-neg (suc n / suc b) (omega (arith, div-le_self (suc n) (suc b))), above)
        (moved_up (suc n % suc b) b bound small')
