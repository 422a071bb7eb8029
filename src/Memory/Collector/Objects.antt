-- ===== src/Memory/Collector/Objects.antt =====
-- Objects in memory, as the collector of vm/MemoryManager.cpp reads them.
use lodtalk.Prelude.{
  ℕ, zero, suc, ◌+◌, ◌-◌, ◌%◌, ◌^◌, List, [], ◌∷◌, ◌++◌, Bool, ◌||◌, leb, ◌==◌, if◌then◌else◌,
}
use lodtalk.ObjectModel.MethodHeader.{get_literal_count}

-- `ObjectFormat` of include/Lodtalk/ObjectModel.hpp, the formats that the collector names.
abbrev pub of_fixed_size : ℕ
of_fixed_size = 1

abbrev pub of_variable_size_no_ivars : ℕ
of_variable_size_no_ivars = 2

abbrev pub of_variable_size_ivars : ℕ
of_variable_size_ivars = 3

abbrev pub of_weak_variable_size : ℕ
of_weak_variable_size = 4

abbrev pub of_weak_fixed_size : ℕ
of_weak_fixed_size = 5

abbrev pub of_compiled_method : ℕ
of_compiled_method = 24

-- `sizeof(ObjectHeader)`, and of a pointer.
abbrev pub header_size : ℕ
header_size = 8

abbrev pub pointer_size : ℕ
pointer_size = 8

-- The fields `objectFormat` and `slotCount` of the header at each address, and the 64-bit word at
-- each address. An object is the address of its header.
pub record Memory : Type 0 where
  pub object_format : ℕ → ℕ
  pub slot_count : ℕ → ℕ
  pub word_at : ℕ → ℕ

-- `GarbageCollector::Color`
pub data Color : Type 0 where
  white gray black : Color

-- `n` words from an address on.
unfoldable pub words_from : Memory → ℕ → ℕ → List ℕ
words_from m zero a = []
words_from m (suc n) a = m.word_at a ∷ words_from m n (a + pointer_size)

-- `auto slotCount` has the type of the bit field, `unsigned int`: the count of a big object, which
-- stands in front of the header, is cut to 32 bits.
unfoldable pub traversed_slot_count : Memory → ℕ → ℕ
traversed_slot_count m object =
    if m.slot_count object == 255 then m.word_at (object - 8) % 2 ^ 32 else m.slot_count object

unfoldable pub slots : Memory → ℕ → List ℕ
unfolding words_from traversed_slot_count
slots m object = words_from m (traversed_slot_count m object) (object + header_size)

-- `getLiteralCount` and `getFirstLiteralPointer` of vm/Method.hpp.
unfoldable pub literals : Memory → ℕ → List ℕ
unfolding words_from
literals m object =
    words_from m (get_literal_count (m.word_at (object + header_size)))
      (object + header_size + pointer_size)

-- The formats whose slots `markObject` traverses. Weak slots are left out.
unfoldable pub has_strong_slots : ℕ → Bool
has_strong_slots format =
    (format == of_fixed_size)
    || ((format == of_variable_size_no_ivars) || (format == of_variable_size_ivars))

-- The words that `markObject` calls itself on, in order.
unfoldable pub children : Memory → ℕ → List ℕ
unfolding has_strong_slots slots literals
children m object =
    (if has_strong_slots (m.object_format object) then slots m object else [])
    ++ (if leb of_compiled_method (m.object_format object) then literals m object else [])
