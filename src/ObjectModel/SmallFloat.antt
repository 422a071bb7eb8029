-- ===== src/ObjectModel/SmallFloat.antt =====
-- Small floats of include/Lodtalk/ObjectModel.hpp, on the 64 bits of a `double`
-- (`reinterpretDoubleAsUInt64` and `reinterpretUInt64AsDouble` keep the bits).
use Prim.Native.Nat.{bit_and, bit_or}
use mathlib.Core.Logic.{◌↔◌}
use lodtalk.Prelude.{
  ℕ, ◌+◌, ◌-◌, ◌*◌, ◌/◌, ◌%◌, ◌^◌, ◌≤◌, ◌<◌, ◌≡◌, ◌≢◌, ◌⊎◌, ap, arith, Bool, true, ◌||◌, leb,
  if◌then◌else◌,
}
use lodtalk.Prelude.Bits.{bit_and-mask, bit_or_field}
use lodtalk.Outcome.{Outcome, ok, abort, assertion, ◌>>=◌, ok-injective}
use lodtalk.ObjectModel.Oop.{word, small_float_tag, is_small_float}

abbrev pub small_float_exponent_offset : ℕ
small_float_exponent_offset = 896

abbrev pub small_float_exponent_max : ℕ
small_float_exponent_max = 1151

-- `0xfffffffffffff` and `0x7ff`
unfoldable pub extract_mantissa : ℕ → ℕ
extract_mantissa bits = bit_and bits (2 ^ 52 - 1)

unfoldable pub extract_exponent : ℕ → ℕ
extract_exponent bits = bit_and (bits / 2 ^ 52) (2 ^ 11 - 1)

-- `floatFitsInSmallFloat`; `SmallFloatExponentMin` is the offset.
unfoldable pub float_fits_in_small_float : ℕ → Bool
unfolding extract_exponent
float_fits_in_small_float bits =
    leb small_float_exponent_offset (extract_exponent bits)
    || leb (extract_exponent bits) small_float_exponent_max

-- `rotateLeft1` and `rotateRight1` at `uint64_t`
unfoldable pub rotate_left1 : ℕ → ℕ
rotate_left1 value = bit_or (value * 2 % word) (value / 2 ^ 63)

unfoldable pub rotate_right1 : ℕ → ℕ
rotate_right1 value = bit_or (value * 2 ^ 63 % word) (value / 2)

unfoldable pub encode_small_float : ℕ → Outcome ℕ
unfolding float_fits_in_small_float rotate_left1
encode_small_float value =
    if float_fits_in_small_float value
    then (let bits = (rotate_left1 value + word - small_float_exponent_offset * 2 ^ 53) % word in
        ok (bit_or (bits * 2 ^ 3 % word) small_float_tag))
    else abort assertion

unfoldable pub decode_small_float : ℕ → Outcome ℕ
unfolding is_small_float rotate_right1
decode_small_float v =
    if is_small_float v
    then ok (rotate_right1 ((v / 2 ^ 3 + small_float_exponent_offset * 2 ^ 53) % word))
    else abort assertion

exponent-div : (bits : ℕ) → extract_exponent bits ≡ bits / 2 ^ 52 % 2 ^ 11
unfolding extract_exponent
exponent-div bits = bit_and-mask 11 (bits / 2 ^ 52)

rotate_left1_lem : (v : ℕ) → v < 2 ^ 64 → rotate_left1 v ≡ v % 2 ^ 63 * 2 + v / 2 ^ 63
unfolding rotate_left1
rotate_left1_lem v h =
    let even : v * 2 % word ≡ v % 2 ^ 63 * 2 = omega arith in
    rw even (bit_or_field 1 (v % 2 ^ 63) (v / 2 ^ 63) (omega arith))

rotate_right1_lem : (v : ℕ) → v < 2 ^ 64 → rotate_right1 v ≡ v % 2 * 2 ^ 63 + v / 2
unfolding rotate_right1
rotate_right1_lem v h =
    let top : v * 2 ^ 63 % word ≡ v % 2 * 2 ^ 63 = omega arith in
    rw top (bit_or_field 63 (v % 2) (v / 2) (omega arith))

-- Every exponent passes the test, since its two comparisons are joined by `||`.
pub float_fits_always : (bits : ℕ) → float_fits_in_small_float bits ≡ true
unfolding float_fits_in_small_float
float_fits_always bits = ground arith

tagged : (x : ℕ) → bit_or (x * 2 ^ 3 % word) small_float_tag ≡ x % 2 ^ 61 * 8 + 4
tagged x =
    let low : x * 2 ^ 3 % word ≡ x % 2 ^ 61 * 2 ^ 3 = omega arith in
    rw low (bit_or_field 3 (x % 2 ^ 61) 4 (omega arith))

encode_small_float_lem :
    (v : ℕ)
    → v < 2 ^ 64
    → encode_small_float v
      ≡ ok ((v % 2 ^ 63 * 2 + v / 2 ^ 63 + 2 ^ 64 - 896 * 2 ^ 53) % 2 ^ 64 % 2 ^ 61 * 8 + 4)
unfolding encode_small_float
encode_small_float_lem v h = rw (float_fits_always v, rotate_left1_lem v h) (ap ok (tagged _))

decode_small_float_lem :
    (y : ℕ)
    → y < 2 ^ 61
    → decode_small_float (y * 8 + 4)
      ≡ ok ((y + 896 * 2 ^ 53) % 2 ^ 64 % 2 * 2 ^ 63 + (y + 896 * 2 ^ 53) % 2 ^ 64 / 2)
unfolding decode_small_float
decode_small_float_lem y h =
    let tag : (y * 8 + 4) % 2 ^ 3 ≡ 4 = omega arith in
    let rest : (y * 8 + 4) / 2 ^ 3 ≡ y = omega arith in
    rw (
      bit_and-mask 3 (y * 8 + 4),
      tag,
      rest,
      rotate_right1_lem ((y + 896 * 2 ^ 53) % 2 ^ 64) (omega arith),
    )

-- The word of a float, decoded.
decoded : ℕ → ℕ
decoded v =
    let y = (v % 2 ^ 63 * 2 + v / 2 ^ 63 + 2 ^ 64 - 896 * 2 ^ 53) % 2 ^ 64 % 2 ^ 61 in
    (y + 896 * 2 ^ 53) % 2 ^ 64 % 2 * 2 ^ 63 + (y + 896 * 2 ^ 53) % 2 ^ 64 / 2

decoded-eq :
    (v : ℕ) → v < 2 ^ 64 → 896 ≤ v / 2 ^ 52 % 2 ^ 11 → v / 2 ^ 52 % 2 ^ 11 ≤ 1151 → decoded v ≡ v
unfolding decoded
decoded-eq v h lo hi = omega arith

decoded-ne :
    (v : ℕ)
    → v < 2 ^ 64
    → decoded v ≡ v
    → (896 ≤ v / 2 ^ 52 % 2 ^ 11) × (v / 2 ^ 52 % 2 ^ 11 ≤ 1151)
unfolding decoded
decoded-ne v h e = omega arith

decode-encode_small_float_mod :
    (v : ℕ) → v < 2 ^ 64 → (encode_small_float v >>= decode_small_float) ≡ ok (decoded v)
unfolding decoded
decode-encode_small_float_mod v h =
    rw (encode_small_float_lem v h) (decode_small_float_lem _ (omega arith))

-- The 64 bits of a double come back from its tagged word exactly when its exponent field is from
-- `SmallFloatExponentMin` to `SmallFloatExponentMax`.
pub decode-encode_small_float :
    (v : ℕ)
    → v < 2 ^ 64
    → ((encode_small_float v >>= decode_small_float) ≡ ok v) ↔ (
        (small_float_exponent_offset ≤ extract_exponent v)
        × (extract_exponent v ≤ small_float_exponent_max))
decode-encode_small_float v h =
    rw (decode-encode_small_float_mod v h, exponent-div v)
      (λ e. decoded-ne v h (ok-injective e), λ r. ap ok (decoded-eq v h r.0 r.1))

-- `floatFitsInSmallFloat` accepts each double whose exponent field is out of that range, and the
-- tagged word does not give it back.
pub float_fits_accepts_lost :
    (v : ℕ)
    → v < 2 ^ 64
    → (extract_exponent v < small_float_exponent_offset)
      ⊎ (small_float_exponent_max < extract_exponent v)
    → (float_fits_in_small_float v ≡ true) × ((encode_small_float v >>= decode_small_float) ≢ ok v)
float_fits_accepts_lost v h out =
    (float_fits_always v, λ e. absurd (omega (arith, (decode-encode_small_float v h).0 e)))
