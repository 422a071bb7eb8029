-- ===== src/Memory/Compaction/Small.antt =====
-- `AllocatedObject` of vm/MemoryManager.cpp, where the object is not a big one.
use Prim.Native.Nat.{bit_and, bit_or}
use lodtalk.Prelude.{ℕ, ◌+◌, ◌*◌, ◌/◌, ◌%◌, ◌^◌, ◌<◌, ◌≡◌, refl, ◌∙◌, arith, false}
use lodtalk.Prelude.Bits.{bit_and-mask, bit_or_field, bit_or-zero}
use lodtalk.ObjectModel.Oop.{word}
use lodtalk.Memory.VmHeap.Rounding.{upper_bits}
use lodtalk.Memory.Compaction.Blocks.{
  AllocatedObject, alignment_mask, is_big_object, compute_size, get_forwarding_destination,
  get_forwarding_pointer, set_forwarding_pointer, header_offset, word_before_header,
}

-- The low bits of the forwarding pointer do not say that the object is big.
pub record IsSmall (b : AllocatedObject) : Type 0 where
  pub unmarked : b.raw_forwarding_pointer % 8 ≡ 0
  pub counted : b.slot_count < 255

-- An aligned address passes the mask.
pub aligned-mask : (p : ℕ) → p % 8 ≡ 0 → p < word → bit_and p alignment_mask ≡ p
aligned-mask p a h = upper_bits 61 3 refl p h ∙ omega arith

pub aligned-or : (p r : ℕ) → p % 8 ≡ 0 → r < 8 → bit_or p r ≡ p + r
aligned-or p r a h = let e : p ≡ p / 8 * 2 ^ 3 = omega arith in rw e (bit_or_field 3 (p / 8) r h)

module _ (b : AllocatedObject) (s : IsSmall b) where
  pub IsSmall-is_big_object : is_big_object b ≡ false
  unfolding is_big_object
  IsSmall-is_big_object =
      let low : bit_and b.raw_forwarding_pointer 1 ≡ 0 =
        bit_and-mask 1 b.raw_forwarding_pointer ∙ omega (arith, s.unmarked) in
      rw low refl

  pub IsSmall-compute_size : compute_size b ≡ 16 + b.slot_count * 8
  unfolding compute_size
  IsSmall-compute_size = rw IsSmall-is_big_object refl

  pub IsSmall-header_offset : header_offset b ≡ 8
  unfolding header_offset
  IsSmall-header_offset = rw IsSmall-is_big_object refl

  pub IsSmall-word_before_header : word_before_header b ≡ b.raw_forwarding_pointer
  unfolding word_before_header
  IsSmall-word_before_header = rw IsSmall-is_big_object refl

  pub IsSmall-set_forwarding_pointer :
      (p : ℕ)
      → p % 8 ≡ 0
      → p < word
      → set_forwarding_pointer b p ≡ record b { raw_forwarding_pointer = p }
  unfolding set_forwarding_pointer
  IsSmall-set_forwarding_pointer p a h =
      let low : bit_and b.raw_forwarding_pointer 7 ≡ 0 =
        bit_and-mask 3 b.raw_forwarding_pointer ∙ s.unmarked in
      rw (aligned-mask p a h, low, bit_or-zero p) refl

  pub IsSmall-get_forwarding_destination :
      (free : ℕ)
      → b.raw_forwarding_pointer ≡ free + 8
      → free + 8 < word
      → get_forwarding_destination b ≡ free
  unfolding get_forwarding_destination
  IsSmall-get_forwarding_destination free e h =
      let value : get_forwarding_pointer b ≡ b.raw_forwarding_pointer =
        aligned-mask b.raw_forwarding_pointer s.unmarked (omega arith) in
      rw (IsSmall-is_big_object, value, e) (omega arith)
