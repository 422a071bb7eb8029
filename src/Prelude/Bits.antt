-- ===== src/Prelude/Bits.antt =====
-- `|` and `&` on the native numbers, by the digit recursion that the native operations stand
-- for: masks are remainders, and fields that do not overlap add up.
use Prim.Native.Nat.{
  ℕ, zero, suc, ◌+◌, ◌-◌, ◌*◌, ◌/◌, ◌%◌, ◌^◌, ◌≤◌, ◌<◌, min, max, bit_and, bit_or, digits,
  bit_and-bitwise, bit_or-bitwise,
}
use mathlib.Core.Path.{◌≡◌, refl, ap, ap₂, sym, ◌∙◌, subst}
use native.Mathlib.Omega.{arith}
use native.Mathlib.Nat.{pow-suc, div-add-mod', mul-add-mod_self_right, mod-eq_of_lt, mod-lt}

module _ (z : ℕ → ℕ) (f : ℕ → ℕ → ℕ) where
  one_more : (n b a : ℕ) → a ≤ n → digits z f (suc n) a b ≡ digits z f n a b
  one_more zero b zero h = refl
  one_more zero b (suc a) h = absurd (omega arith)
  one_more (suc n) b zero h = refl
  one_more (suc n) b (suc a) h = omega (arith, one_more n (b / 2) (suc a / 2) (omega arith))

  some_more : (d n b a : ℕ) → a ≤ n → digits z f (d + n) a b ≡ digits z f n a b
  some_more zero n b a h = let e : 0 + n ≡ n = omega arith in rw e refl
  some_more (suc d) n b a h =
      let e : suc d + n ≡ suc (d + n) = omega arith in
      rw e (one_more (d + n) b a (omega arith) ∙ some_more d n b a h)

  -- The digits of a half do not need the fuel of the whole.
  half_fuel : (b a : ℕ) → digits z f a (suc a / 2) b ≡ digits z f (suc a / 2) (suc a / 2) b
  half_fuel b a =
      let e : a - suc a / 2 + suc a / 2 ≡ a = omega arith in
      subst (λ n. digits z f n (suc a / 2) b ≡ digits z f (suc a / 2) (suc a / 2) b) e
        (some_more (a - suc a / 2) (suc a / 2) b (suc a / 2) (omega arith))

zero-bit_and : (b : ℕ) → bit_and 0 b ≡ 0
zero-bit_and = bit_and-bitwise 0

pub zero-bit_or : (b : ℕ) → bit_or 0 b ≡ b
zero-bit_or = bit_or-bitwise 0

and_halves : (b a : ℕ) → bit_and a b ≡ min (a % 2) (b % 2) + 2 * bit_and (a / 2) (b / 2)
and_halves b zero = omega (arith, zero-bit_and (b / 2), zero-bit_and b)
and_halves b (suc a) = omega (
  arith,
  half_fuel (λ _. zero) min (b / 2) a,
  bit_and-bitwise (suc a / 2) (b / 2),
  bit_and-bitwise (suc a) b,
)

or_halves : (b a : ℕ) → bit_or a b ≡ max (a % 2) (b % 2) + 2 * bit_or (a / 2) (b / 2)
or_halves b zero = omega (arith, zero-bit_or (b / 2), zero-bit_or b)
or_halves b (suc a) = omega (
  arith,
  half_fuel (λ b. b) max (b / 2) a,
  bit_or-bitwise (suc a / 2) (b / 2),
  bit_or-bitwise (suc a) b,
)

-- `n` bounds the digits that are left.
and_none : (a n : ℕ) → a ≤ n → bit_and a 0 ≡ 0
and_none a zero h = let e : a ≡ 0 = omega arith in rw e refl
and_none a (suc n) h = omega (arith, and_halves 0 a, and_none (a / 2) n (omega arith))

or_none : (a n : ℕ) → a ≤ n → bit_or a 0 ≡ a
or_none a zero h = let e : a ≡ 0 = omega arith in rw e refl
or_none a (suc n) h = omega (arith, or_halves 0 a, or_none (a / 2) n (omega arith))

pow_pos : (k : ℕ) → 0 < 2 ^ k
pow_pos zero = omega arith
pow_pos (suc k) = omega (arith, pow_pos k, pow-suc 2 k)

-- The remainder by twice `m`, from the lowest digit.
mod_double : (a m : ℕ) → 0 < m → a % (m * 2) ≡ a / 2 % m * 2 + a % 2
mod_double a m h =
    ap (λ t. t % (m * 2)) (omega (arith, div-add-mod' (a / 2) m))
    ∙ mul-add-mod_self_right (a / 2 / m) (m * 2) (a / 2 % m * 2 + a % 2)
    ∙ mod-eq_of_lt (omega (arith, mod-lt (a / 2) h))

-- `x & (2^k - 1)`.
pub bit_and-mask : (k a : ℕ) → bit_and a (2 ^ k - 1) ≡ a % 2 ^ k
bit_and-mask zero a = omega (arith, and_none a a (omega arith))
bit_and-mask (suc k) a =
    rw (and_halves (2 ^ suc k - 1) a, pow-suc 2 k, mod_double a (2 ^ k) (pow_pos k))
      (let half : (2 ^ k * 2 - 1) / 2 ≡ 2 ^ k - 1 = omega (arith, pow_pos k) in
        rw (half, bit_and-mask k (a / 2)) (omega (arith, pow_pos k)))

-- A field above `k` bits, and one within them.
pub bit_or_field : (k h b : ℕ) → b < 2 ^ k → bit_or (h * 2 ^ k) b ≡ h * 2 ^ k + b
bit_or_field zero h b lt =
    let e : b ≡ 0 = omega arith in rw e (omega (arith, or_none (h * 1) (h * 1) (omega arith)))
bit_or_field (suc k) h b lt =
    let half : h * 2 ^ suc k / 2 ≡ h * 2 ^ k = rw (pow-suc 2 k) (omega arith) in
    let even : h * 2 ^ suc k % 2 ≡ 0 = rw (pow-suc 2 k) (omega arith) in
    let low : b / 2 < 2 ^ k = omega (arith, pow-suc 2 k) in
    rw (or_halves b (h * 2 ^ suc k), half, even, bit_or_field k h (b / 2) low, pow-suc 2 k)
      (omega arith)

-- The two fields the other way round.
pub bit_or_field' : (k b h : ℕ) → b < 2 ^ k → bit_or b (h * 2 ^ k) ≡ b + h * 2 ^ k
bit_or_field' zero b h lt = let e : b ≡ 0 = omega arith in rw e (omega (arith, zero-bit_or (h * 1)))
bit_or_field' (suc k) b h lt =
    let half : h * 2 ^ suc k / 2 ≡ h * 2 ^ k = rw (pow-suc 2 k) (omega arith) in
    let even : h * 2 ^ suc k % 2 ≡ 0 = rw (pow-suc 2 k) (omega arith) in
    let low : b / 2 < 2 ^ k = omega (arith, pow-suc 2 k) in
    rw (or_halves (h * 2 ^ suc k) b, half, even, bit_or_field' k (b / 2) h low, pow-suc 2 k)
      (omega arith)

-- The digits above the k-th and those below it are combined on their own.
module _ (k h b : ℕ) where
  half_split : h * 2 ^ suc k + b ≡ (h * 2 ^ k + b / 2) * 2 + b % 2
  half_split = rw (pow-suc 2 k) (omega arith)

  split-div : (h * 2 ^ suc k + b) / 2 ≡ h * 2 ^ k + b / 2
  split-div = omega (arith, half_split)

  split-mod : (h * 2 ^ suc k + b) % 2 ≡ b % 2
  split-mod = omega (arith, half_split)

pub bit_or_split :
    (k h b h' b' : ℕ)
    → b < 2 ^ k
    → b' < 2 ^ k
    → bit_or (h * 2 ^ k + b) (h' * 2 ^ k + b') ≡ bit_or h h' * 2 ^ k + bit_or b b'
bit_or_split zero h b h' b' lt lt' =
    let e : b ≡ 0 = omega arith in
    let e' : b' ≡ 0 = omega arith in
    let s : h * 1 + 0 ≡ h = omega arith in
    let s' : h' * 1 + 0 ≡ h' = omega arith in rw (e, e', s, s') (omega (arith, zero-bit_or 0))
bit_or_split (suc k) h b h' b' lt lt' =
    rw
      (
        or_halves (h' * 2 ^ suc k + b') (h * 2 ^ suc k + b),
        split-div k h b,
        split-div k h' b',
        split-mod k h b,
        split-mod k h' b',
        bit_or_split k h (b / 2) h' (b' / 2) (omega (arith, pow-suc 2 k))
            (omega (arith, pow-suc 2 k)),
        pow-suc 2 k,
      )
      (omega (arith, or_halves b' b))

pub bit_and_split :
    (k h b h' b' : ℕ)
    → b < 2 ^ k
    → b' < 2 ^ k
    → bit_and (h * 2 ^ k + b) (h' * 2 ^ k + b') ≡ bit_and h h' * 2 ^ k + bit_and b b'
bit_and_split zero h b h' b' lt lt' =
    let e : b ≡ 0 = omega arith in
    let e' : b' ≡ 0 = omega arith in
    let s : h * 1 + 0 ≡ h = omega arith in
    let s' : h' * 1 + 0 ≡ h' = omega arith in rw (e, e', s, s') (omega (arith, zero-bit_and 0))
bit_and_split (suc k) h b h' b' lt lt' =
    rw
      (
        and_halves (h' * 2 ^ suc k + b') (h * 2 ^ suc k + b),
        split-div k h b,
        split-div k h' b',
        split-mod k h b,
        split-mod k h' b',
        bit_and_split k h (b / 2) h' (b' / 2) (omega (arith, pow-suc 2 k))
            (omega (arith, pow-suc 2 k)),
        pow-suc 2 k,
      )
      (omega (arith, and_halves b' b))

pub bit_and-zero : (a : ℕ) → bit_and a 0 ≡ 0
bit_and-zero a = and_none a a (omega arith)

pub bit_or-zero : (a : ℕ) → bit_or a 0 ≡ a
bit_or-zero a = or_none a a (omega arith)

pub bit_or-one_pos : (a : ℕ) → 0 < bit_or a 1
bit_or-one_pos a = omega (arith, or_halves 1 a)

-- A single bit.
pub bit_and-bit : (w k : ℕ) → 0 < 2 ^ k → bit_and w (2 ^ k) ≡ w / 2 ^ k % 2 * 2 ^ k
bit_and-bit w k h =
    let split : w ≡ w / 2 ^ k * 2 ^ k + w % 2 ^ k = sym (div-add-mod' w (2 ^ k)) in
    let bit : 2 ^ k ≡ 1 * 2 ^ k + 0 = omega arith in
    ap₂ bit_and split bit
    ∙ bit_and_split k (w / 2 ^ k) (w % 2 ^ k) 1 0 (mod-lt w h) h
    ∙ omega
        (arith, ap (λ (x : ℕ). x * 2 ^ k) (bit_and-mask 1 (w / 2 ^ k)), bit_and-zero (w % 2 ^ k))
