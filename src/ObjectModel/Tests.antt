-- ===== src/ObjectModel/Tests.antt =====
-- The object model at concrete words.
use mathlib.Core.Logic.{◌↔◌}
use lodtalk.Prelude.{ℕ, ◌-◌, ◌*◌, ◌^◌, ◌≤◌, ◌<◌, ◌≡◌, ◌≢◌, refl, arith, inl, true, false}
use lodtalk.Prelude.Int.{pos, negsuc, ◌≤ℤ◌}
use lodtalk.Outcome.{ok, ◌>>=◌}
use lodtalk.ObjectModel.Oop.{
  encode_character, decode_character, encode_small_integer, decode_small_integer,
  signed_fits_in_small_integer,
}
use lodtalk.ObjectModel.Characters.{decode-encode_character}
use lodtalk.ObjectModel.SmallIntegers.{decode-encode_small_integer, signed_fits_accepts_lost}
use lodtalk.ObjectModel.SmallFloat.{
  extract_exponent, small_float_exponent_offset, small_float_exponent_max,
  float_fits_in_small_float, encode_small_float, decode_small_float, decode-encode_small_float,
  float_fits_accepts_lost,
}
use lodtalk.ObjectModel.MethodHeader.{
  create, has_primitive, get_literal_count, get_temporal_count, get_argument_count,
  needs_large_frame, primitive_flags,
}
use lodtalk.ObjectModel.HeaderFields.{create-fields, create-defined, needs_large_frame_always}

decode-encode_small_integer_example :
    (decode_small_integer (encode_small_integer (negsuc 4)) ≡ ok (negsuc 4))
    ↔ ((negsuc (2 ^ 62 - 1) ≤ℤ negsuc 4) × (negsuc 4 ≤ℤ pos (2 ^ 62 - 1)))
decode-encode_small_integer_example = decode-encode_small_integer (negsuc 4)

signed_fits_accepts_lost_example :
    (signed_fits_in_small_integer (pos (2 ^ 62)) ≡ true)
    × (decode_small_integer (encode_small_integer (pos (2 ^ 62))) ≢ ok (pos (2 ^ 62)))
signed_fits_accepts_lost_example =
    signed_fits_accepts_lost (pos (2 ^ 62)) (omega arith) (omega arith) (omega arith)

-- The bits of 1.0.
decode-encode_small_float_example :
    ((encode_small_float (1023 * 2 ^ 52) >>= decode_small_float) ≡ ok (1023 * 2 ^ 52)) ↔ (
      (small_float_exponent_offset ≤ extract_exponent (1023 * 2 ^ 52))
      × (extract_exponent (1023 * 2 ^ 52) ≤ small_float_exponent_max))
decode-encode_small_float_example = decode-encode_small_float (1023 * 2 ^ 52) (omega arith)

-- The bits of 0.0.
float_fits_accepts_lost_example :
    (float_fits_in_small_float 0 ≡ true) × ((encode_small_float 0 >>= decode_small_float) ≢ ok 0)
float_fits_accepts_lost_example =
    float_fits_accepts_lost 0 (omega arith) (inl (unfold extract_exponent in omega arith))

header_eq : create 3 2 1 (primitive_flags true) ≡ ok 34734087
unfolding create
header_eq = refl

create-fields_example :
    (get_literal_count 34734087 ≡ 3)
    × (get_temporal_count 34734087 ≡ 2)
    × (get_argument_count 34734087 ≡ 1)
    × (has_primitive 34734087 ≡ true)
create-fields_example = create-fields 3 2 1 true 34734087 header_eq

create-defined_example :
    ((3 < 2 ^ 16) × (2 < 2 ^ 6) × (1 < 2 ^ 4))
    ↔ ((w : ℕ) × (create 3 2 1 (primitive_flags false) ≡ ok w))
create-defined_example = create-defined 3 2 1 false

needs_large_frame_always_example : needs_large_frame 0 ≡ true
needs_large_frame_always_example = needs_large_frame_always 0

-- The character A.
decode-encode_character_example : decode_character (encode_character (pos 65)) ≡ ok (pos 65)
decode-encode_character_example = decode-encode_character (pos 65) (omega arith) (omega arith)
