-- ===== src/Math/Floor.antt =====
-- `divideRoundNeg` and `moduleRoundNeg` of include/Lodtalk/Math.hpp as a division with remainder.
use lodtalk.Prelude.{
  ℕ, zero, suc, ◌+◌, ◌-◌, ◌*◌, ◌/◌, ◌%◌, ◌<◌, ◌≡◌, ◌≢◌, ◌⊎◌, arith, false, ◌==◌, if◌then◌else◌,
}
use native.Mathlib.Nat.{div-add-mod', mod-lt, add-mul-div_right, add-div_right, div-eq_of_lt}
use lodtalk.Prelude.Int.{ℤ, pos, negsuc, ◌+ℤ◌, ◌*ℤ◌, ◌≤ℤ◌, ◌<ℤ◌, neg_of_nat}
use lodtalk.Outcome.{ok}
use lodtalk.Assembler.Sizes.{is_zero}
use lodtalk.Math.{divide_round_neg, module_round_neg}
use lodtalk.Math.Signs.{
  half, divide-pos, divide-neg_pos, divide-neg, divide-pos_neg, module-pos, module-neg,
  module-neg_pos,
}

-- Products by the signs of their factors.
mul-pos : (q b : ℕ) → pos q *ℤ pos b ≡ pos (q * b)
unfolding ◌*ℤ◌
mul-pos q b = ground arith

mul-neg_pos : (q b : ℕ) → neg_of_nat q *ℤ pos b ≡ neg_of_nat (q * b)
unfolding ◌*ℤ◌
mul-neg_pos zero b = ground arith
mul-neg_pos (suc q) b = ground arith

mul-pos_neg : (q b : ℕ) → pos q *ℤ negsuc b ≡ neg_of_nat (q * suc b)
unfolding ◌*ℤ◌
mul-pos_neg q b = ground arith

-- A remainder of the sign of the divisor, and smaller.
abbrev pub IsRemainder : ℤ → ℤ → Type 0
IsRemainder r (pos b) = (pos 0 ≤ℤ r) × (r <ℤ pos b)
IsRemainder r (negsuc b) = (r ≤ℤ pos 0) × (negsuc b <ℤ r)

abbrev pub Divides : ℤ → ℤ → Type 0
Divides a b =
    (q : ℤ) × (r : ℤ) × (divide_round_neg a b ≡ ok q)
    × (module_round_neg a b ≡ ok r)
    × (q *ℤ b +ℤ r ≡ a)
    × IsRemainder r b

pos-Divides : (n b : ℕ) → n < half → b < half → Divides (pos n) (pos (suc b))
pos-Divides n b h h' = (
  pos (n / suc b),
  pos (n % suc b),
  divide-pos n b h h',
  module-pos n b h h',
  rw (mul-pos (n / suc b) (suc b)) (unfold ◌+ℤ◌ in ground (arith, div-add-mod' n (suc b))),
  (omega arith, (let small : n % suc b < suc b = mod-lt n (omega arith) in omega arith)),
)

neg-Divides : (n b : ℕ) → n < half → b < half → Divides (negsuc n) (negsuc b)
neg-Divides n b h h' = (
  pos (suc n / suc b),
  neg_of_nat (suc n % suc b),
  divide-neg n b h h',
  module-neg n b h h',
  rw (mul-pos_neg (suc n / suc b) b) (unfold ◌+ℤ◌ in ground (arith, div-add-mod' (suc n) (suc b))),
  (
    ground arith,
    (let small : suc n % suc b < suc b = mod-lt (suc n) (omega arith) in ground arith),
  ),
)

-- The quotient rounded up.
round_up : (m b : ℕ) → m < suc b → (m + b) / suc b ≡ (if m == 0 then 0 else 1)
round_up zero b h = div-eq_of_lt (omega arith)
round_up (suc m) b h =
    let e : suc m + b ≡ m + suc b = omega arith in
    let test : (suc m == 0) ≡ false = ground arith in
    rw (e, test, add-div_right m {k = suc b} (omega arith))
      (omega (arith, div-eq_of_lt {n = m} {m = suc b} (omega arith)))

divide_up : (n b : ℕ) → (n + suc b) / suc b ≡ suc n / suc b + (if suc n % suc b == 0 then 0 else 1)
divide_up n b =
    let small : suc n % suc b < suc b = mod-lt (suc n) (omega arith) in
    let whole : n + suc b ≡ suc n % suc b + b + suc n / suc b * suc b =
      omega (arith, div-add-mod' (suc n) (suc b)) in
    rw
      (
        whole,
        add-mul-div_right (suc n % suc b + b) (suc n / suc b) {z = suc b} (omega arith),
        round_up (suc n % suc b) b small,
      )
      (omega arith)

balance :
    (k m b n : ℕ)
    → m < suc b
    → k * suc b + m ≡ suc n
    → neg_of_nat ((k + (if m == 0 then 0 else 1)) * suc b) +ℤ pos (if m == 0 then 0 else suc b - m)
      ≡ negsuc n
unfolding ◌+ℤ◌
balance k zero b n h e =
    let same : (k + 0) * suc b ≡ k * suc b = omega arith in rw same (ground arith)
balance k (suc m) b n h e =
    let test : (suc m == 0) ≡ false = ground arith in
    let same : (k + 1) * suc b ≡ k * suc b + suc b = grind arith in rw (test, same) (ground arith)

neg_pos-Divides : (n b : ℕ) → n < half → suc b < half → Divides (negsuc n) (pos (suc b))
neg_pos-Divides n b h h' =
    let small : suc n % suc b < suc b = mod-lt (suc n) (omega arith) in
    (
      neg_of_nat ((n + suc b) / suc b),
      pos (if suc n % suc b == 0 then 0 else suc b - suc n % suc b),
      divide-neg_pos n b h (omega arith) h',
      module-neg_pos n b h (omega arith),
      rw (mul-neg_pos ((n + suc b) / suc b) (suc b), divide_up n b)
          (balance (suc n / suc b) (suc n % suc b) b n small (div-add-mod' (suc n) (suc b))),
      (omega arith, ground arith),
    )

-- The values of small integers: 63 bits, with the sign.
abbrev pub IsSmallInteger : ℤ → Type 0
IsSmallInteger v = (negsuc (half - 1) ≤ℤ v) × (v <ℤ pos half)

-- For two small integers, a dividend below 0 or a divisor above 0, and a divisor other than 0, no
-- operation of the two functions overflows, and both have a result: a quotient and a remainder of the
-- dividend by the divisor, where the remainder has the sign of the divisor and is smaller.
pub divide-module :
    (a b : ℤ)
    → IsSmallInteger a
    → IsSmallInteger b
    → is_zero b ≡ false
    → (a <ℤ pos 0) ⊎ (pos 0 <ℤ b)
    → Divides a b
divide-module (pos n) (pos zero) s s' nz h = cc
divide-module (pos n) (pos (suc b)) s s' nz h = pos-Divides n b (omega arith) (omega arith)
divide-module (pos n) (negsuc b) s s' nz h = absurd (ground arith)
divide-module (negsuc n) (pos zero) s s' nz h = cc
divide-module (negsuc n) (pos (suc b)) s s' nz h = neg_pos-Divides n b (omega arith) (omega arith)
divide-module (negsuc n) (negsuc b) s s' nz h = neg-Divides n b (omega arith) (omega arith)

no_sum : (p : ℕ) (r : ℤ) (n : ℕ) → pos 0 <ℤ pos n → r ≤ℤ pos 0 → neg_of_nat p +ℤ r ≢ pos n
unfolding ◌+ℤ◌
no_sum p (pos r) n h k e = ground arith
no_sum p (negsuc r) n h k e = ground arith

-- For a small integer above 0 as the dividend and one below 0 as the divisor, `divideRoundNeg` has a
-- quotient, without overflow, which is not negative, and no remainder of the sign of the divisor makes up the dividend.
pub divide_wrong_sign :
    (a b : ℤ)
    → IsSmallInteger a
    → IsSmallInteger b
    → pos 0 <ℤ a
    → b <ℤ pos 0
    → (q : ℤ) × (divide_round_neg a b ≡ ok q)
      × (pos 0 ≤ℤ q)
      × (¬ ((r : ℤ) × IsRemainder r b × (q *ℤ b +ℤ r ≡ a)))
divide_wrong_sign (pos n) (pos b) s s' h k = absurd (ground arith)
divide_wrong_sign (negsuc n) b s s' h k = absurd (ground arith)
divide_wrong_sign (pos n) (negsuc b) s s' h k = (
  pos ((n + b) / suc b),
  divide-pos_neg n b (omega arith) (omega arith),
  omega arith,
  λ (r, small, sum).
      no_sum ((n + b) / suc b * suc b) r n h small.0 (rw (mul-pos_neg ((n + b) / suc b) b) at sum),
)
