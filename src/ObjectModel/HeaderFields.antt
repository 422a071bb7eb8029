-- ===== src/ObjectModel/HeaderFields.antt =====
-- What `CompiledMethodHeader` reads back from a header that `create` has made.
use Prim.Native.Nat.{bit_and, bit_or}
use lodtalk.Prelude.{
  ℕ, ◌+◌, ◌-◌, ◌*◌, ◌/◌, ◌%◌, ◌^◌, ◌≤◌, ◌<◌, ◌≡◌, refl, sym, ap, ◌∙◌, arith, Bool, true, false, leb,
  if◌then◌else◌,
}
use lodtalk.Prelude.Bits.{
  bit_and-mask, bit_and-bit, bit_or_field', bit_or_split, bit_or-zero, bit_or-one_pos,
}
use mathlib.Core.Logic.{◌↔◌}
use lodtalk.Outcome.{ok, ok-injective}
use lodtalk.ObjectModel.MethodHeader.{
  create, has_primitive, get_literal_count, get_temporal_count, get_argument_count,
  needs_large_frame, primitive_flags,
}

-- The word of a header, in plain arithmetic.
abbrev header_word : ℕ → ℕ → ℕ → Bool → ℕ
header_word l t a p = 1 + l * 2 + (if p then 2 ^ 17 else 0) + t * 2 ^ 19 + a * 2 ^ 25

within : (x m : ℕ) → x ≤ m → leb x m ≡ true
within x m h = ground arith

module _ (l t a : ℕ) (hl : l < 2 ^ 16) (ht : t < 2 ^ 6) (ha : a < 2 ^ 4) where
  counts_word :
      bit_or (bit_or (bit_or 1 (l * 2 ^ 1)) (t * 2 ^ 19)) (a * 2 ^ 25)
      ≡ 1 + l * 2 + t * 2 ^ 19 + a * 2 ^ 25
  counts_word =
      rw
        (
          bit_or_field' 1 1 l (omega arith),
          bit_or_field' 19 (1 + l * 2 ^ 1) t (omega arith),
          bit_or_field' 25 (1 + l * 2 ^ 1 + t * 2 ^ 19) a (omega arith),
        )
        refl

  with_flag :
      bit_or (1 + l * 2 + t * 2 ^ 19 + a * 2 ^ 25) (2 ^ 17)
      ≡ 1 + l * 2 + 2 ^ 17 + t * 2 ^ 19 + a * 2 ^ 25
  with_flag =
      let split : 1 + l * 2 + t * 2 ^ 19 + a * 2 ^ 25 ≡ (t * 2 + a * 2 ^ 7) * 2 ^ 18 + (1 + l * 2) =
        omega arith in
      let flag : 2 ^ 17 ≡ 0 * 2 ^ 18 + 2 ^ 17 = refl in
      rw split (
        bit_or_split 18 (t * 2 + a * 2 ^ 7) (1 + l * 2) 0 (2 ^ 17) (omega arith) (omega arith)
        ∙ omega
            (arith, bit_or-zero (t * 2 + a * 2 ^ 7), bit_or_field' 17 (1 + l * 2) 1 (omega arith)))

  fields_word :
      bit_or
        (bit_or (bit_or 1 (bit_and l (2 ^ 16 - 1) * 2 ^ 1)) (bit_and t (2 ^ 6 - 1) * 2 ^ 19))
        (bit_and a (2 ^ 4 - 1) * 2 ^ 25)
      ≡ 1 + l * 2 + t * 2 ^ 19 + a * 2 ^ 25
  fields_word =
      let el : l % 2 ^ 16 ≡ l = omega arith in
      let et : t % 2 ^ 6 ≡ t = omega arith in
      let ea : a % 2 ^ 4 ≡ a = omega arith in
      rw (bit_and-mask 16 l, bit_and-mask 6 t, bit_and-mask 4 a, el, et, ea) counts_word

  create-word : (p : Bool) → create l t a (primitive_flags p) ≡ ok (header_word l t a p)
  unfolding create
  create-word p =
      rw
        (
          within l (2 ^ 16 - 1) (omega arith),
          within t (2 ^ 6 - 1) (omega arith),
          within a (2 ^ 4 - 1) (omega arith),
          fields_word,
        )
        (flags p)
    where
      flags :
          (p : Bool)
          → ok (bit_or (1 + l * 2 + t * 2 ^ 19 + a * 2 ^ 25) (primitive_flags p))
            ≡ ok (header_word l t a p)
      flags true = ap ok with_flag
      flags false = ap ok (bit_or-zero (1 + l * 2 + t * 2 ^ 19 + a * 2 ^ 25) ∙ omega arith)

-- `create` gives a word only where the counts fit their fields.
create-bounds : (l t a f w : ℕ) → create l t a f ≡ ok w → (l < 2 ^ 16) × (t < 2 ^ 6) × (a < 2 ^ 4)
unfolding create
create-bounds l t a f w e = ground arith

module _ (l t a : ℕ) (hl : l < 2 ^ 16) (ht : t < 2 ^ 6) (ha : a < 2 ^ 4) where
  word_literals : (p : Bool) → get_literal_count (header_word l t a p) ≡ l
  unfolding get_literal_count
  word_literals true = omega (arith, bit_and-mask 16 (header_word l t a true / 2 ^ 1))
  word_literals false = omega (arith, bit_and-mask 16 (header_word l t a false / 2 ^ 1))

  word_temporals : (p : Bool) → get_temporal_count (header_word l t a p) ≡ t
  unfolding get_temporal_count
  word_temporals true = omega (arith, bit_and-mask 6 (header_word l t a true / 2 ^ 19))
  word_temporals false = omega (arith, bit_and-mask 6 (header_word l t a false / 2 ^ 19))

  word_arguments : (p : Bool) → get_argument_count (header_word l t a p) ≡ a
  unfolding get_argument_count
  word_arguments true = omega (arith, bit_and-mask 4 (header_word l t a true / 2 ^ 25))
  word_arguments false = omega (arith, bit_and-mask 4 (header_word l t a false / 2 ^ 25))

  word_primitive : (p : Bool) → has_primitive (header_word l t a p) ≡ p
  unfolding has_primitive
  word_primitive true = ground (arith, bit_and-bit (header_word l t a true) 17 (omega arith))
  word_primitive false = ground (arith, bit_and-bit (header_word l t a false) 17 (omega arith))

-- A header that `create` makes gives back its counts and its primitive flag.
pub create-fields :
    (l t a : ℕ) (p : Bool) (w : ℕ)
    → create l t a (primitive_flags p) ≡ ok w
    → (get_literal_count w ≡ l)
      × (get_temporal_count w ≡ t)
      × (get_argument_count w ≡ a)
      × (has_primitive w ≡ p)
create-fields l t a p w e =
    let (hl, ht, ha) = create-bounds l t a (primitive_flags p) w e in
    let word : w ≡ header_word l t a p = ok-injective (sym e ∙ create-word l t a hl ht ha p) in
    rw word (
      word_literals l t a hl ht ha p,
      word_temporals l t a hl ht ha p,
      word_arguments l t a hl ht ha p,
      word_primitive l t a hl ht ha p,
    )

-- The header is made exactly when the counts fit 16, 6 and 4 bits.
pub create-defined :
    (l t a : ℕ) (p : Bool)
    → ((l < 2 ^ 16) × (t < 2 ^ 6) × (a < 2 ^ 4))
      ↔ ((w : ℕ) × (create l t a (primitive_flags p) ≡ ok w))
create-defined l t a p = (
  λ h. (header_word l t a p, create-word l t a h.0 h.1 h.2 p),
  λ r. create-bounds l t a (primitive_flags p) r.0 r.1,
)

-- `needsLargeFrame` answers true for every header, whatever its large frame bit.
pub needs_large_frame_always : (w : ℕ) → needs_large_frame w ≡ true
unfolding needs_large_frame
needs_large_frame_always w =
    let split : w ≡ w / 2 ^ 18 * 2 ^ 18 + w % 2 ^ 18 = omega arith in
    let pos : 0 < bit_or w (2 ^ 18) = rw split (
      rw (bit_or_split 18 (w / 2 ^ 18) (w % 2 ^ 18) 1 0 (omega arith) (omega arith))
        (omega (arith, bit_or-one_pos (w / 2 ^ 18)))) in
    ground arith
