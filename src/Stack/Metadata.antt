-- ===== src/Stack/Metadata.antt =====
-- The frame metadata of vm/StackMemory.hpp keeps its fields apart.
use Prim.Native.Nat.{bit_and, bit_or}
use lodtalk.Prelude.{
  ℕ, ◌+◌, ◌*◌, ◌/◌, ◌%◌, ◌^◌, ◌≤◌, ◌<◌, ◌≡◌, refl, ap, ◌∙◌, arith, Bool, true, false, not, ◌==◌,
  if◌then◌else◌,
}
use lodtalk.Prelude.Bits.{bit_and-mask, bit_or_field', bit_or_split, bit_or-zero}
use lodtalk.Stack.Frames.{encode_frame_meta_data, decode_frame_meta_data, marry_metadata}

abbrev pub bit : Bool → ℕ
bit b = if b then 1 else 0

-- The word in plain arithmetic.
pub encode-word :
    (c b : Bool) (n : ℕ) → encode_frame_meta_data c b n ≡ n % 256 + bit b * 2 ^ 8 + bit c * 2 ^ 16
unfolding encode_frame_meta_data
encode-word c b n =
    rw
      (
        bit_and-mask 8 n,
        bit_or_field' 8 (n % 256) (bit b) (omega arith),
        bit_or_field' 16 (n % 256 + bit b * 2 ^ 8) (bit c) (word_low b),
      )
      refl
  where
    word_low : (b : Bool) → n % 256 + bit b * 2 ^ 8 < 2 ^ 16
    word_low true = omega arith
    word_low false = omega arith

pub bit-le : (b : Bool) → bit b ≤ 1
bit-le true = omega arith
bit-le false = omega arith

flags :
    (c b : Bool) (n : ℕ)
    → ◌≡◌ {A = Bool × Bool × ℕ} (not (bit c == 0), not (bit b == 0), n) (c, b, n)
flags true true n = refl
flags true false n = refl
flags false true n = refl
flags false false n = refl

one_bit : (c : Bool) → bit_or (bit c) 1 ≡ 1
one_bit true = refl
one_bit false = refl

decode-word :
    (c b : Bool) (n : ℕ)
    → n < 256
    → decode_frame_meta_data (n + bit b * 2 ^ 8 + bit c * 2 ^ 16) ≡ (c, b, n)
unfolding decode_frame_meta_data
decode-word c b n h =
    let w = n + bit b * 2 ^ 8 + bit c * 2 ^ 16 in
    let context : bit_and (w / 2 ^ 16) 0xFF ≡ bit c =
      bit_and-mask 8 (w / 2 ^ 16) ∙ omega (arith, bit-le b, bit-le c) in
    let block : bit_and (w / 2 ^ 8) 0xFF ≡ bit b =
      bit_and-mask 8 (w / 2 ^ 8) ∙ omega (arith, bit-le b, bit-le c) in
    let arguments : bit_and w 0xFF ≡ n = bit_and-mask 8 w ∙ omega (arith, bit-le b, bit-le c) in
    rw (context, block, arguments) (flags c b n)

pub marry-word :
    (c b : Bool) (n : ℕ)
    → n < 256
    → marry_metadata (n + bit b * 2 ^ 8 + bit c * 2 ^ 16) ≡ n + bit b * 2 ^ 8 + bit true * 2 ^ 16
unfolding marry_metadata
marry-word c b n h =
    let low : n + bit b * 2 ^ 8 < 2 ^ 16 = omega (arith, bit-le b) in
    let split : n + bit b * 2 ^ 8 + bit c * 2 ^ 16 ≡ bit c * 2 ^ 16 + (n + bit b * 2 ^ 8) =
      omega arith in
    ap (λ (w : ℕ). bit_or w (1 * 2 ^ 16 + 0)) split
    ∙ bit_or_split 16 (bit c) (n + bit b * 2 ^ 8) 1 0 low (omega arith)
    ∙ rw (bit_or-zero (n + bit b * 2 ^ 8), one_bit c) (omega arith)

-- Frame metadata decode to the two flags and to the number of arguments below 256 that they are
-- made of, and a number of 256 or more loses its upper bits. Once marryFrame has married the frame,
-- they decode to the same with the context flag set.
pub decode-encode_frame_meta_data :
    (has_context is_block : Bool) (n : ℕ)
    → (decode_frame_meta_data (encode_frame_meta_data has_context is_block n)
        ≡ (has_context, is_block, n % 256))
      × (decode_frame_meta_data (marry_metadata (encode_frame_meta_data has_context is_block n))
          ≡ (true, is_block, n % 256))
decode-encode_frame_meta_data has_context is_block n =
    let small : n % 256 < 256 = omega arith in
    let word = encode-word has_context is_block n in
    (
      ap decode_frame_meta_data word ∙ decode-word has_context is_block (n % 256) small,
      ap (λ (w : ℕ). decode_frame_meta_data (marry_metadata w)) word
          ∙ ap decode_frame_meta_data (marry-word has_context is_block (n % 256) small)
          ∙ decode-word true is_block (n % 256) small,
    )
