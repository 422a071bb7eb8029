-- ===== src/ObjectModel/MethodHeader.antt =====
-- `CompiledMethodHeader` of include/Lodtalk/ObjectModel.hpp.
use Prim.Native.Nat.{bit_and, bit_or}
use lodtalk.Prelude.{ℕ, ◌-◌, ◌*◌, ◌/◌, ◌^◌, Bool, not, leb, ◌==◌, if◌then◌else◌}
use lodtalk.Outcome.{Outcome, ok, abort, assertion}

abbrev pub literal_mask : ℕ
literal_mask = 2 ^ 16 - 1

abbrev pub literal_shift : ℕ
literal_shift = 1

abbrev pub has_primitive_bit : ℕ
has_primitive_bit = 2 ^ 17

abbrev pub needs_large_frame_bit : ℕ
needs_large_frame_bit = 2 ^ 18

abbrev pub temporal_shift : ℕ
temporal_shift = 19

abbrev pub temporal_mask : ℕ
temporal_mask = 2 ^ 6 - 1

abbrev pub argument_shift : ℕ
argument_shift = 25

abbrev pub argument_mask : ℕ
argument_mask = 2 ^ 4 - 1

-- `CompiledMethodHeader::create`: the word, after its three assertions.
unfoldable pub create : ℕ → ℕ → ℕ → ℕ → Outcome ℕ
create literal_count temporal_count argument_count extra_flags =
    if not (leb literal_count literal_mask)
    then abort assertion
    else if not (leb temporal_count temporal_mask)
    then abort assertion
    else if not (leb argument_count argument_mask)
    then abort assertion
    else ok (
        bit_or
          (bit_or
            (bit_or (bit_or 1 (bit_and literal_count literal_mask * 2 ^ literal_shift))
              (bit_and temporal_count temporal_mask * 2 ^ temporal_shift))
            (bit_and argument_count argument_mask * 2 ^ argument_shift))
          extra_flags)

-- `x & bit` for a single bit is the bit where it is set.
unfoldable pub has_primitive : ℕ → Bool
has_primitive w = not (bit_and w has_primitive_bit == 0)

unfoldable pub get_literal_count : ℕ → ℕ
get_literal_count w = bit_and (w / 2 ^ literal_shift) literal_mask

unfoldable pub get_temporal_count : ℕ → ℕ
get_temporal_count w = bit_and (w / 2 ^ temporal_shift) temporal_mask

unfoldable pub get_argument_count : ℕ → ℕ
get_argument_count w = bit_and (w / 2 ^ argument_shift) argument_mask

-- The source joins the word and the bit by `|`.
unfoldable pub needs_large_frame : ℕ → Bool
needs_large_frame w = not (bit_or w needs_large_frame_bit == 0)

-- `extraFlags` as `Assembler::generate` builds them.
abbrev pub primitive_flags : Bool → ℕ
primitive_flags has = if has then has_primitive_bit else 0
