-- ===== src/Memory/VmHeap/Rounding.antt =====
-- Rounding up to pages by a mask.
use Prim.Native.Nat.{bit_and}
use native.Mathlib.Nat.{
  pow-suc, div-add-mod', mod-lt, mod-eq_of_lt, div-lt_iff_lt-mul, mul-mod_left,
}
use mathlib.Core.Path.{ap₂}
use lodtalk.Prelude.{ℕ, zero, suc, ◌+◌, ◌-◌, ◌*◌, ◌/◌, ◌%◌, ◌^◌, ◌≤◌, ◌<◌, ◌≡◌, sym, ap, ◌∙◌, arith}
use lodtalk.Prelude.Bits.{bit_and-mask, bit_and_split, bit_and-zero}
use lodtalk.ObjectModel.Oop.{word}
use lodtalk.Memory.VmHeap.{new_capacity, complement}

pow_sum : (j k : ℕ) → 2 ^ (j + k) ≡ 2 ^ j * 2 ^ k
pow_sum zero k = let e : 0 + k ≡ k = omega arith in rw e (omega arith)
pow_sum (suc j) k =
    let e : suc j + k ≡ suc (j + k) = omega arith in
    rw (e, pow-suc 2 (j + k), pow-suc 2 j, pow_sum j k) (grind arith)

pub pow_pos : (k : ℕ) → 0 < 2 ^ k
pow_pos zero = omega arith
pow_pos (suc k) = omega (arith, pow_pos k, pow-suc 2 k)

pred-mul : (a b : ℕ) → 0 < a → (a - 1) * b + b ≡ a * b
pred-mul zero b h = absurd (omega arith)
pred-mul (suc a) b h = let e : suc a - 1 ≡ a = omega arith in rw e (grind arith)

module _ (j k : ℕ) (bits : j + k ≡ 64) where
  all_bits : 2 ^ j * 2 ^ k ≡ word
  all_bits = sym (pow_sum j k) ∙ ap (λ n. 2 ^ n) bits

  -- The mask has the upper j bits.
  complement-page : complement (2 ^ k - 1) ≡ (2 ^ j - 1) * 2 ^ k + 0
  complement-page = omega (arith, all_bits, pred-mul (2 ^ j) (2 ^ k) (pow_pos j), pow_pos k)

  pub upper_bits : (x : ℕ) → x < word → bit_and x (complement (2 ^ k - 1)) ≡ x / 2 ^ k * 2 ^ k
  upper_bits x h =
      let upper : x / 2 ^ k < 2 ^ j =
        (div-lt_iff_lt-mul {k = 2 ^ k} {x = x} {y = 2 ^ j} (pow_pos k)).1
          (omega (arith, all_bits)) in
      let low : x / 2 ^ k % 2 ^ j ≡ x / 2 ^ k = mod-eq_of_lt upper in
      ap₂ bit_and (sym (div-add-mod' x (2 ^ k))) complement-page
      ∙ bit_and_split k (x / 2 ^ k) (x % 2 ^ k) (2 ^ j - 1) 0 (mod-lt x (pow_pos k)) (pow_pos k)
      ∙ rw (bit_and-mask j (x / 2 ^ k), low, bit_and-zero (x % 2 ^ k)) (omega arith)

  -- The new capacity is the least multiple of the page size that has room.
  pub new_capacity_lem :
      (n : ℕ)
      → n + 2 ^ k ≤ word
      → (n ≤ new_capacity (2 ^ k) n)
        × (new_capacity (2 ^ k) n < n + 2 ^ k)
        × (new_capacity (2 ^ k) n % 2 ^ k ≡ 0)
  unfolding new_capacity
  new_capacity_lem n h =
      let x = n + 2 ^ k - 1 in
      let small : x < word = omega (arith, pow_pos k) in
      let e : new_capacity (2 ^ k) n ≡ x / 2 ^ k * 2 ^ k =
        ap (λ (y : ℕ). bit_and y (complement (2 ^ k - 1))) (mod-eq_of_lt small)
        ∙ upper_bits x small in
      let split = div-add-mod' x (2 ^ k) in
      let low = mod-lt x (pow_pos k) in
      (omega arith, omega (arith, pow_pos k), rw e (mul-mod_left (x / 2 ^ k) (2 ^ k)))
