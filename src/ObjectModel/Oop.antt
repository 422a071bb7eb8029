-- ===== src/ObjectModel/Oop.antt =====
-- `Oop` of include/Lodtalk/ObjectModel.hpp: a 64-bit word with a tag in its low bits.
use Prim.Native.Nat.{bit_and, bit_or}
use lodtalk.Prelude.{ℕ, ◌-◌, ◌/◌, ◌^◌, Bool, ◌&&◌, ltb, leb, ◌==◌, if◌then◌else◌}
use lodtalk.Prelude.Int.{ℤ, pos, negsuc, ◌*ℤ◌, wrap, leb_ℤ}
use lodtalk.Outcome.{Outcome, ok, abort, assertion}

-- `uintptr_t` and `uint64_t`.
abbrev pub word : ℕ
word = 2 ^ 64

-- The number that a word stands for as `intptr_t`, and 32 bits as `int`.
abbrev pub signed64 : ℕ → ℤ
signed64 w = if ltb w (2 ^ 63) then pos w else negsuc (2 ^ 64 - w - 1)

abbrev pub signed32 : ℕ → ℤ
signed32 w = if ltb w (2 ^ 31) then pos w else negsuc (2 ^ 32 - w - 1)

-- `>>` of a signed number, which rounds down.
abbrev pub shift_right : ℤ → ℕ → ℤ
shift_right (pos n) k = pos (n / 2 ^ k)
shift_right (negsuc n) k = negsuc (n / 2 ^ k)

-- `ObjectTag`
abbrev pub tag_bits : ℕ
tag_bits = 3

abbrev pub pointer_mask : ℕ
pointer_mask = 7

abbrev pub pointer_tag : ℕ
pointer_tag = 0

abbrev pub small_integer_tag : ℕ
small_integer_tag = 1

abbrev pub small_integer_mask : ℕ
small_integer_mask = 1

abbrev pub small_integer_shift : ℕ
small_integer_shift = 1

abbrev pub character_tag : ℕ
character_tag = 2

abbrev pub character_mask : ℕ
character_mask = 7

abbrev pub character_shift : ℕ
character_shift = 3

abbrev pub small_float_tag : ℕ
small_float_tag = 4

abbrev pub small_float_mask : ℕ
small_float_mask = 7

abbrev pub small_float_shift : ℕ
small_float_shift = 3

unfoldable pub is_small_integer : ℕ → Bool
is_small_integer v = bit_and v small_integer_mask == small_integer_tag

unfoldable pub is_character : ℕ → Bool
is_character v = bit_and v character_mask == character_tag

unfoldable pub is_small_float : ℕ → Bool
is_small_float v = bit_and v small_float_mask == small_float_tag

unfoldable pub is_pointer : ℕ → Bool
is_pointer v = bit_and v pointer_mask == pointer_tag

-- `SmallIntegerMin` is `SmallIntegerValue(1) << 63`, and `SmallIntegerMax` is its complement.
abbrev pub small_integer_min : ℤ
small_integer_min = negsuc (2 ^ 63 - 1)

abbrev pub small_integer_max : ℤ
small_integer_max = pos (2 ^ 63 - 1)

unfoldable pub unsigned_fits_in_small_integer : ℕ → Bool
unsigned_fits_in_small_integer value = leb value (2 ^ 63 - 1)

unfoldable pub signed_fits_in_small_integer : ℤ → Bool
signed_fits_in_small_integer value = leb_ℤ small_integer_min value && leb_ℤ value small_integer_max

unfoldable pub encode_small_integer : ℤ → ℕ
unfolding ◌*ℤ◌ wrap
encode_small_integer integer =
    bit_or (wrap word (integer *ℤ pos (2 ^ small_integer_shift))) small_integer_tag

unfoldable pub decode_small_integer : ℕ → Outcome ℤ
unfolding is_small_integer
decode_small_integer v =
    if is_small_integer v
    then ok (shift_right (signed64 v) small_integer_shift)
    else abort assertion

-- The shift is one of `int`, and the result is extended to the word.
unfoldable pub encode_character : ℤ → ℕ
unfolding ◌*ℤ◌ wrap
encode_character character =
    bit_or (wrap word (signed32 (wrap (2 ^ 32) (character *ℤ pos (2 ^ character_shift)))))
      character_tag

unfoldable pub decode_character : ℕ → Outcome ℤ
unfolding is_character wrap
decode_character v =
    if is_character v
    then ok (signed32 (wrap (2 ^ 32) (shift_right (signed64 v) character_shift)))
    else abort assertion
