-- ===== src/Stack/Frames.antt =====
-- Stack frames of vm/StackMemory.hpp: words at fixed offsets from the frame pointer.
use Prim.Native.Nat.{bit_and, bit_or}
use lodtalk.Prelude.{
  ℕ, zero, suc, ◌+◌, ◌-◌, ◌*◌, ◌/◌, ◌^◌, List, [], ◌∷◌, ◌++◌, Bool, not, ltb, ◌==◌, if◌then◌else◌,
}

abbrev pub word_size : ℕ
word_size = 8

-- `InterpreterStackFrame`. The negative offsets are given by their absolute values.
abbrev pub last_argument_offset : ℕ
last_argument_offset = 2 * word_size

abbrev pub return_instruction_pointer_offset : ℕ
return_instruction_pointer_offset = word_size

abbrev pub prev_frame_pointer_offset : ℕ
prev_frame_pointer_offset = 0

abbrev pub method_offset : ℕ
method_offset = word_size

abbrev pub metadata_offset : ℕ
metadata_offset = 2 * word_size

abbrev pub this_context_offset : ℕ
this_context_offset = 3 * word_size

abbrev pub receiver_offset : ℕ
receiver_offset = 4 * word_size

abbrev pub first_temp_offset : ℕ
first_temp_offset = 5 * word_size

unfoldable pub encode_frame_meta_data : Bool → Bool → ℕ → ℕ
encode_frame_meta_data has_context is_block num_arguments =
    bit_or (bit_or (bit_and num_arguments 0xFF) ((if is_block then 1 else 0) * 2 ^ 8))
      ((if has_context then 1 else 0) * 2 ^ 16)

-- `hasContext`, `isBlock` and `numArguments`.
unfoldable pub decode_frame_meta_data : ℕ → Bool × Bool × ℕ
decode_frame_meta_data metadata = (
  not (bit_and (metadata / 2 ^ 16) 0xFF == 0),
  not (bit_and (metadata / 2 ^ 8) 0xFF == 0),
  bit_and metadata 0xFF,
)

-- `setMetadata(getMetadata() | (1 << 16))` of `marryFrame`.
unfoldable pub marry_metadata : ℕ → ℕ
marry_metadata metadata = bit_or metadata (1 * 2 ^ 16)

-- The words of the stack by their addresses.
abbrev pub Words : Type 0
Words = ℕ → ℕ

pub record StackFrame : Type 0 where
  pub frame_pointer : ℕ
  pub stack_pointer : ℕ

module _ (memory : Words) (f : StackFrame) where
  unfoldable pub get_prev_frame_pointer : ℕ
  get_prev_frame_pointer = memory (f.frame_pointer + prev_frame_pointer_offset)

  unfoldable pub get_return_pointer : ℕ
  get_return_pointer = memory (f.frame_pointer + return_instruction_pointer_offset)

  unfoldable pub get_metadata : ℕ
  get_metadata = memory (f.frame_pointer - metadata_offset)

  unfoldable pub get_argument_count : ℕ
  unfolding get_metadata
  get_argument_count = bit_and get_metadata 0xFF

  unfoldable pub get_end_pointer : ℕ
  unfolding get_argument_count
  get_end_pointer = f.frame_pointer + last_argument_offset + (get_argument_count + 1) * word_size

  unfoldable pub get_previous_frame : StackFrame
  unfolding get_prev_frame_pointer get_end_pointer
  get_previous_frame = record {
    frame_pointer = get_prev_frame_pointer;
    stack_pointer = get_end_pointer;
  }

-- The addresses of `n` words, and those from `pos` up to `last`.
unfoldable pub addresses : ℕ → ℕ → List ℕ
addresses pos zero = []
addresses pos (suc n) = pos ∷ addresses (pos + word_size) n

unfoldable pub addresses_between : ℕ → ℕ → List ℕ
unfolding addresses
addresses_between pos last =
    if ltb pos last then addresses pos ((last - pos + (word_size - 1)) / word_size) else []

-- The addresses of the words that `oopElementsDo` visits, in order.
unfoldable pub oop_elements : Words → StackFrame → List ℕ
oop_elements memory f =
    (f.frame_pointer - method_offset)
    ∷ (f.frame_pointer - this_context_offset)
    ∷ (addresses_between f.stack_pointer (f.frame_pointer - this_context_offset)
        ++ addresses (f.frame_pointer + last_argument_offset) (get_argument_count memory f + 1))
