-- ===== src/ObjectModel/SmallIntegers.antt =====
-- Which integers survive `encodeSmallInteger` and `decodeSmallInteger`.
use Prim.Native.Nat.{bit_or}
use mathlib.Core.Logic.{◌↔◌}
use mathlib.Core.Path.{subst, ap}
use lodtalk.Prelude.{
  ℕ, suc, ◌+◌, ◌-◌, ◌*◌, ◌%◌, ◌^◌, ◌<◌, ◌≡◌, ◌≢◌, arith, true, ltb, if◌then◌else◌,
}
use lodtalk.Prelude.Int.{ℤ, pos, negsuc, ◌*ℤ◌, ◌≤ℤ◌, wrap}
use lodtalk.Prelude.Bits.{bit_and-mask, bit_or_field}
use lodtalk.Outcome.{ok, ok-injective}
use lodtalk.ObjectModel.Oop.{
  word, encode_small_integer, decode_small_integer, signed_fits_in_small_integer,
}

double-pos : (n : ℕ) → wrap word (pos n *ℤ pos 2) ≡ n % 2 ^ 63 * 2
unfolding ◌*ℤ◌ wrap
double-pos n = ground arith

double-negsuc : (n : ℕ) → wrap word (negsuc n *ℤ pos 2) ≡ (2 ^ 63 - suc n % 2 ^ 63) % 2 ^ 63 * 2
unfolding ◌*ℤ◌ wrap
double-negsuc n = ground arith

set_tag : (h : ℕ) → bit_or (h * 2) 1 ≡ h * 2 + 1
set_tag h = bit_or_field 1 h 1 (omega arith)

-- The words of small integers, in plain arithmetic.
encode-pos : (n : ℕ) → encode_small_integer (pos n) ≡ n % 2 ^ 63 * 2 + 1
unfolding encode_small_integer
encode-pos n = rw (double-pos n) (set_tag (n % 2 ^ 63))

encode-negsuc :
    (n : ℕ) → encode_small_integer (negsuc n) ≡ (2 ^ 63 - suc n % 2 ^ 63) % 2 ^ 63 * 2 + 1
unfolding encode_small_integer
encode-negsuc n = rw (double-negsuc n) (set_tag ((2 ^ 63 - suc n % 2 ^ 63) % 2 ^ 63))

-- Decoding an odd word takes its upper 63 bits, as a signed number.
decode-odd :
    (h : ℕ)
    → h < 2 ^ 63
    → decode_small_integer (h * 2 + 1)
      ≡ ok (if ltb h (2 ^ 62) then pos h else negsuc (2 ^ 63 - h - 1))
unfolding decode_small_integer
decode-odd h lt = rw (bit_and-mask 1 (h * 2 + 1)) (ground arith)

-- The number that 63 bits stand for.
abbrev signed63 : ℕ → ℤ
signed63 h = if ltb h (2 ^ 62) then pos h else negsuc (2 ^ 63 - h - 1)

-- What comes back for any `intptr_t`: the number in 63 bits.
pub decode-encode_small_integer_mod :
    (v : ℤ) → decode_small_integer (encode_small_integer v) ≡ ok (signed63 (wrap (2 ^ 63) v))
decode-encode_small_integer_mod (pos n) =
    rw (encode-pos n) (unfold wrap in decode-odd (n % 2 ^ 63) (omega arith))
decode-encode_small_integer_mod (negsuc n) =
    rw (encode-negsuc n)
      (unfold wrap in decode-odd ((2 ^ 63 - suc n % 2 ^ 63) % 2 ^ 63) (omega arith))

abbrev FitsIn63 : ℤ → Type 0
FitsIn63 v = (negsuc (2 ^ 62 - 1) ≤ℤ v) × (v ≤ℤ pos (2 ^ 62 - 1))

signed63-wrap : (v : ℤ) → FitsIn63 v → signed63 (wrap (2 ^ 63) v) ≡ v
unfolding wrap
signed63-wrap (pos n) h = ground arith
signed63-wrap (negsuc n) h = ground arith

signed63-FitsIn63 : (h : ℕ) → h < 2 ^ 63 → FitsIn63 (signed63 h)
signed63-FitsIn63 h lt = ground arith

wrap-lt : (v : ℤ) → wrap (2 ^ 63) v < 2 ^ 63
unfolding wrap
wrap-lt (pos n) = omega arith
wrap-lt (negsuc n) = omega arith

-- An integer survives the encoding exactly when it is between -2 ^ 62 and 2 ^ 62 - 1.
pub decode-encode_small_integer :
    (v : ℤ)
    → (decode_small_integer (encode_small_integer v) ≡ ok v)
      ↔ ((negsuc (2 ^ 62 - 1) ≤ℤ v) × (v ≤ℤ pos (2 ^ 62 - 1)))
decode-encode_small_integer v = rw (decode-encode_small_integer_mod v) (
  λ e. subst FitsIn63 (ok-injective e) (signed63-FitsIn63 (wrap (2 ^ 63) v) (wrap-lt v)),
  λ h. ap ok (signed63-wrap v h),
)

-- `signedFitsInSmallInteger` accepts every `intptr_t` from 2 ^ 62 on, which the encoding loses.
pub signed_fits_accepts_lost :
    (v : ℤ)
    → negsuc (2 ^ 63 - 1) ≤ℤ v
    → v ≤ℤ pos (2 ^ 63 - 1)
    → pos (2 ^ 62) ≤ℤ v
    → (signed_fits_in_small_integer v ≡ true)
      × (decode_small_integer (encode_small_integer v) ≢ ok v)
signed_fits_accepts_lost v lo hi big = (
  unfold signed_fits_in_small_integer in ground arith,
  λ e. absurd (omega (arith, ((decode-encode_small_integer v).0 e).1)),
)
