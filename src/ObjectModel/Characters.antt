-- ===== src/ObjectModel/Characters.antt =====
-- `encodeCharacter` and `decodeCharacter` of include/Lodtalk/ObjectModel.hpp.
use lodtalk.Prelude.{◌+◌, ◌-◌, ◌*◌, ◌%◌, ◌^◌, ◌≡◌, refl, arith}
use lodtalk.Prelude.Int.{ℤ, pos, negsuc, ◌*ℤ◌, ◌≤ℤ◌, wrap}
use lodtalk.Prelude.Bits.{bit_and-mask, bit_or_field}
use lodtalk.Outcome.{ok}
use lodtalk.ObjectModel.Oop.{
  word, signed32, signed64, shift_right, is_character, encode_character, decode_character,
}

-- The word, without its tag.
shifted :
    (c : ℤ)
    → negsuc (2 ^ 28 - 1) ≤ℤ c
    → c ≤ℤ pos (2 ^ 28 - 1)
    → wrap word (signed32 (wrap (2 ^ 32) (c *ℤ pos (2 ^ 3)))) ≡ wrap (2 ^ 61) c * 2 ^ 3
unfolding ◌*ℤ◌ wrap
shifted (pos n) lo hi = ground arith
shifted (negsuc n) lo hi = ground arith

encode_character_lem :
    (c : ℤ)
    → negsuc (2 ^ 28 - 1) ≤ℤ c
    → c ≤ℤ pos (2 ^ 28 - 1)
    → encode_character c ≡ wrap (2 ^ 61) c * 8 + 2
unfolding encode_character
encode_character_lem c lo hi =
    rw (shifted c lo hi) (bit_or_field 3 (wrap (2 ^ 61) c) 2 (omega arith))

back :
    (c : ℤ)
    → negsuc (2 ^ 28 - 1) ≤ℤ c
    → c ≤ℤ pos (2 ^ 28 - 1)
    → signed32 (wrap (2 ^ 32) (shift_right (signed64 (wrap (2 ^ 61) c * 8 + 2)) 3)) ≡ c
unfolding wrap
back (pos n) lo hi = ground arith
back (negsuc n) lo hi = ground arith

-- A character from -2 ^ 28 to 2 ^ 28 - 1 comes back from its tagged word.
pub decode-encode_character :
    (c : ℤ)
    → negsuc (2 ^ 28 - 1) ≤ℤ c
    → c ≤ℤ pos (2 ^ 28 - 1)
    → decode_character (encode_character c) ≡ ok c
unfolding decode_character is_character
decode-encode_character c lo hi =
    let tag : (wrap (2 ^ 61) c * 8 + 2) % 2 ^ 3 ≡ 2 = omega arith in
    rw (encode_character_lem c lo hi, bit_and-mask 3 (wrap (2 ^ 61) c * 8 + 2), tag, back c lo hi)
      refl
