-- ===== src/Memory/Compaction/Blocks.antt =====
-- `AllocatedObject` of vm/MemoryManager.cpp: an object of the heap with its forwarding pointer.
use Prim.Native.Nat.{bit_and, bit_or}
use lodtalk.Prelude.{
  ℕ, zero, suc, ◌+◌, ◌-◌, ◌*◌, ◌%◌, ◌^◌, List, [], ◌∷◌, Bool, not, ◌||◌, leb, ◌==◌, if◌then◌else◌,
}
use lodtalk.Outcome.{Outcome, ok, abort, memory_corruption, ◌>>=◌}
use lodtalk.ObjectModel.Oop.{word}
use lodtalk.ObjectModel.MethodHeader.{get_literal_count}
use lodtalk.Memory.Collector.Objects.{
  Color, header_size, pointer_size, has_strong_slots, of_weak_variable_size, of_weak_fixed_size,
  of_compiled_method,
}

-- `extra_slot_count` is there in big objects only. `words` are the slots, or the data, that follow
-- the header.
pub record AllocatedObject : Type 0 where
  pub raw_forwarding_pointer : ℕ
  pub extra_slot_count : ℕ
  pub slot_count : ℕ
  pub gc_color : Color
  pub object_format : ℕ
  pub words : List ℕ

-- `ObjectAlignment` of include/Lodtalk/ObjectModel.hpp, and its negation as `uintptr_t`.
abbrev pub object_alignment : ℕ
object_alignment = 8

abbrev pub alignment_mask : ℕ
alignment_mask = word - object_alignment

unfoldable pub is_big_object : AllocatedObject → Bool
is_big_object b = not (bit_and b.raw_forwarding_pointer 1 == 0)

unfoldable pub compute_size : AllocatedObject → ℕ
unfolding is_big_object
compute_size b =
    8
    + header_size
    + (if is_big_object b
        then 8 + b.extra_slot_count * pointer_size
        else b.slot_count * pointer_size)

unfoldable pub get_forwarding_pointer : AllocatedObject → ℕ
get_forwarding_pointer b = bit_and b.raw_forwarding_pointer alignment_mask

unfoldable pub get_forwarding_destination : AllocatedObject → ℕ
unfolding get_forwarding_pointer is_big_object
get_forwarding_destination b =
    (get_forwarding_pointer b + word - (if is_big_object b then 16 else 8)) % word

unfoldable pub set_forwarding_pointer : AllocatedObject → ℕ → AllocatedObject
set_forwarding_pointer b new_pointer = record b {
  raw_forwarding_pointer =
      bit_or (bit_and new_pointer alignment_mask)
        (bit_and b.raw_forwarding_pointer (object_alignment - 1));
}

-- Where the header is, from the start of the object; and the word in front of it, which is the
-- forwarding pointer of a small object and the slot count of a big one.
unfoldable pub header_offset : AllocatedObject → ℕ
unfolding is_big_object
header_offset b = if is_big_object b then 16 else 8

unfoldable pub word_before_header : AllocatedObject → ℕ
unfolding is_big_object
word_before_header b = if is_big_object b then b.extra_slot_count else b.raw_forwarding_pointer

-- The formats whose slots `updatePointersOf` traverses, the weak ones too.
unfoldable pub has_slots : ℕ → Bool
unfolding has_strong_slots
has_slots format =
    has_strong_slots format || ((format == of_weak_variable_size) || (format == of_weak_fixed_size))

-- The loop over the first `n` words; past the end of the object is other memory.
unfoldable pub update_first : ℕ → (ℕ → Outcome ℕ) → List ℕ → Outcome (List ℕ)
update_first zero f ws = ok ws
update_first (suc n) f [] = abort memory_corruption
update_first (suc n) f (w ∷ ws) = do w' ← f w; ws' ← update_first n f ws; ok (w' ∷ ws')

-- The literals follow the word of the method header.
unfoldable pub update_literals : (ℕ → Outcome ℕ) → List ℕ → Outcome (List ℕ)
update_literals f [] = abort memory_corruption
update_literals f (header ∷ ws) = do
  ws' ← update_first (get_literal_count header) f ws
  ok (header ∷ ws')

-- `slotCount` has 32 bits.
unfoldable pub updated_slot_count : AllocatedObject → ℕ
updated_slot_count b = if b.slot_count == 255 then word_before_header b % 2 ^ 32 else b.slot_count

-- `updatePointersOf`, where `f` is `updatePointer`.
unfoldable pub update_pointers_of : (ℕ → Outcome ℕ) → AllocatedObject → Outcome AllocatedObject
update_pointers_of f b = do
  slots ←
      if has_slots b.object_format
      then update_first (updated_slot_count b) f b.words
      else ok b.words
  all ← if leb of_compiled_method b.object_format then update_literals f slots else ok slots
  ok (record b { words = all })
