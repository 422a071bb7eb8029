-- ===== src/Assembler/Generate.antt =====
-- `Assembler::generate` of vm/MethodBuilder.cpp, and the method object that
-- `CompiledMethod::newMethodWithHeader` of vm/Method.cpp makes for it.
use Prim.Native.Nat.{bit_and}
use lodtalk.Prelude.{
  ℕ, ◌+◌, ◌-◌, ◌*◌, ◌/◌, Bool, List, [], ◌∷◌, ◌++◌, ltb, ◌==◌, if◌then◌else◌, length,
}
use lodtalk.Outcome.{Outcome, ok, abort, memory_corruption, ◌>>=◌}
use lodtalk.ObjectModel.MethodHeader
use lodtalk.Assembler.Instruction.{Node}
use lodtalk.Assembler.Sizes.{Labels, label_last_position}
use lodtalk.Assembler.Layout.{compute_instructions_size}
use lodtalk.Assembler.Encode.{encode, label_position}

-- A compiled method: the slots and the format of its object header, the method header word, the
-- literals, and the bytes of its instructions from `getFirstBCPointer` on.
pub record CompiledMethod : Type 0 where
  pub slot_count : ℕ
  pub object_format : ℕ
  pub header : ℕ
  pub literals : List ℕ
  pub bytecodes : List ℕ

abbrev pub word_size : ℕ
word_size = 8

-- `OF_COMPILED_METHOD`
abbrev pub of_compiled_method : ℕ
of_compiled_method = 24

-- `((numberOfBytes + wordSize - 1) & (~wordMask)) / wordSize`, where the mask is that of three bits.
unfoldable pub method_slot_count : ℕ → ℕ
method_slot_count number_of_bytes =
    (number_of_bytes + word_size - 1) / word_size * word_size / word_size

unfoldable pub method_format : ℕ → ℕ
method_format number_of_bytes = of_compiled_method + bit_and number_of_bytes (word_size - 1)

-- `Oop::getNumberOfElements` for the formats of bytes (`format >= OF_INDEXABLE_8`).
unfoldable pub byte_elements : ℕ → ℕ → ℕ
byte_elements slot_count format =
    let slot_bytes = slot_count * word_size in
    let extra_bits = bit_and format 7 in
    if extra_bits == 0 then slot_bytes else slot_bytes - word_size + extra_bits

-- `getFirstPC` and `getByteDataSize`
unfoldable pub first_pc : CompiledMethod → ℕ
first_pc m = (MethodHeader.get_literal_count m.header + 1) * word_size

unfoldable pub byte_data_size : CompiledMethod → ℕ
unfolding byte_elements first_pc
byte_data_size m = byte_elements m.slot_count m.object_format - first_pc m

-- The encoding loop: `written` bytes are in the buffer, and `limit` bytes fit.
unfoldable pub encode_stream : (ℕ → ℕ) → Labels → List Node → ℕ → ℕ → Outcome (List ℕ)
unfolding encode
encode_stream positions labels [] written limit = ok []
encode_stream positions labels (n ∷ ns) written limit = do
  bytes ← encode positions labels n
  let after = written + length bytes
  let others = encode_stream positions labels ns after limit
  if ltb limit after then abort memory_corruption else (do rest ← others; ok (bytes ++ rest))

-- `newMethodWithHeader`: the objects's slots and format for the literals, the bytes and the header.
unfoldable pub new_method_with_header : ℕ → ℕ → List ℕ → List ℕ → CompiledMethod
unfolding method_slot_count method_format
new_method_with_header number_of_bytes header literals bytecodes = record {
  slot_count = method_slot_count (number_of_bytes + word_size);
  object_format = method_format (number_of_bytes + word_size);
  header = header;
  literals = literals;
  bytecodes = bytecodes;
}

-- `generate`, for a stream and its literals.
unfoldable pub generate : List Node → List ℕ → ℕ → ℕ → Bool → ℕ → Outcome CompiledMethod
unfolding compute_instructions_size encode_stream new_method_with_header
generate stream literals temporal_count argument_count has_primitive extra_size = do
  (ns, instructions_size) ← compute_instructions_size stream
  header ←
      MethodHeader.create (length literals) temporal_count argument_count
        (MethodHeader.primitive_flags has_primitive)
  bytes ← encode_stream (label_position ns) (label_last_position ns) ns 0 instructions_size
  ok (
      new_method_with_header (length literals * word_size + instructions_size + extra_size) header
        literals bytes)
