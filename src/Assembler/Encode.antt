-- ===== src/Assembler/Encode.antt =====
-- The virtual `encode` of the instruction nodes in vm/MethodBuilder.cpp. The model returns the bytes
-- that the source appends to the buffer.
use Prim.Native.Nat.{bit_or}
use lodtalk.Prelude.{
  ℕ, ◌+◌, ◌-◌, ◌*◌, ◌/◌, ◌%◌, ◌^◌, Bool, true, false, ◌&&◌, not, Option, none, List, [], ◌∷◌, ◌++◌,
  ltb, ◌==◌, if◌then◌else◌,
}
use mathlib.Core.Option.{get_or}
use lodtalk.Prelude.Int.{ℤ, pos, nat_abs, tdiv, trem, wrap}
use lodtalk.Outcome.{Outcome, ok, abort, unimplemented, ◌>>=◌}
use lodtalk.Bytecode
use lodtalk.Assembler.Instruction.{
  Instruction, single_bytecode, push_receiver_variable, store_receiver_variable, push_literal,
  push_literal_variable, store_literal_variable, push_temporal, store_temporal, pop_store_temporal,
  push_array, push_n_closure_temps, call_primitive, push_temporal_in_vector,
  store_temporal_in_vector, pop_store_temporal_in_vector, push_closure, send_message,
  super_send_message, unconditional_jump, conditional_jump, Node,
}
use lodtalk.Assembler.Sizes.{
  is_zero, is_short_delta, extend_a_value, jump_delta_value, mark, Labels, read_label,
}

-- The conversion of a non-negative `int` to `uint8_t`.
abbrev pub byte : ℕ → ℕ
byte n = n % 256

-- `encodeExtA` and `encodeExtB`: nothing for 0, and no code for anything else.
abbrev pub encode_ext_a : ℕ → Outcome (List ℕ)
encode_ext_a value = if value == 0 then ok [] else abort unimplemented

abbrev pub encode_ext_b : ℤ → Outcome (List ℕ)
encode_ext_b value = if is_zero value then ok [] else abort unimplemented

-- Extension A of the index, the opcode, and the low byte of the index.
unfoldable pub encode_extended : ℕ → ℕ → Outcome (List ℕ)
encode_extended opcode index = do
  ext ← encode_ext_a (index / 256)
  ok (ext ++ opcode ∷ index % 256 ∷ [])

-- The second byte of a closure. `x & mask` for a mask of ones is `x % (mask + 1)`, and the
-- assignment to a `uint8_t` keeps eight bits.
unfoldable pub closure_byte : ℕ → ℕ → ℕ → ℕ
closure_byte num_copied num_args num_extensions = byte (
    bit_or
      (bit_or
        (num_extensions
          % (Bytecode.push_closure_num_extensions_mask + 1)
          * 2 ^ Bytecode.push_closure_num_extensions_shift)
        (num_args
          % (Bytecode.push_closure_num_args_mask + 1)
          * 2 ^ Bytecode.push_closure_num_args_shift))
      (num_copied
        % (Bytecode.push_closure_num_copied_mask + 1)
        * 2 ^ Bytecode.push_closure_num_copied_shift))

-- The second byte of a send.
unfoldable pub send_byte : ℕ → ℕ → ℕ
send_byte selector_index argument_count = byte (
    bit_or (argument_count % (Bytecode.send_argument_count_mask + 1)) (
      selector_index
      % (Bytecode.send_literal_index_mask + 1)
      * 2 ^ Bytecode.send_literal_index_shift))

-- `encode` of the two jumps, given the opcodes of the short and of the long form. `delta - 1` is
-- taken only where `delta` is at least 1.
unfoldable pub encode_jump : ℕ → ℕ → ℤ → Outcome (List ℕ)
unfolding tdiv trem wrap
encode_jump short_first long delta =
    if is_zero delta
    then ok []
    else if is_short_delta delta
    then ok (byte (short_first + nat_abs delta - 1) ∷ [])
    else (do
      ext ← encode_ext_b (tdiv delta (pos 256))
      ok (ext ++ long ∷ wrap 256 (trem delta (pos 256)) ∷ []))

unfoldable pub encode_send : ℕ → ℕ → Outcome (List ℕ)
unfolding send_byte
encode_send selector_index argument_count =
    if argument_count == 0 && ltb selector_index Bytecode.send_short_args0_range_size
    then ok (byte (Bytecode.send_short_args0_first + selector_index) ∷ [])
    else if argument_count == 1 && ltb selector_index Bytecode.send_short_args1_range_size
    then ok (byte (Bytecode.send_short_args1_first + selector_index) ∷ [])
    else if argument_count == 2 && ltb selector_index Bytecode.send_short_args2_range_size
    then ok (byte (Bytecode.send_short_args2_first + selector_index) ∷ [])
    else if ltb Bytecode.send_argument_count_mask argument_count
    then abort unimplemented
    else if ltb Bytecode.send_literal_index_mask selector_index
    then abort unimplemented
    else ok (Bytecode.send ∷ send_byte selector_index argument_count ∷ [])

-- The current position of each label (`getPosition`), 0 for a label in no stream.
unfoldable pub position_from : List Node → ℕ → Option ℕ → Option ℕ
position_from [] id found = found
position_from (n ∷ ns) id found = position_from ns id (mark n.instruction id n.position found)

unfoldable pub label_position : List Node → ℕ → ℕ
unfolding position_from
label_position ns id = get_or (position_from ns id none) 0

-- `encode` of the classes of instructions.
abbrev pub encode_single_bytecode : ℕ → Bool → Outcome (List ℕ)
encode_single_bytecode b r = ok (byte b ∷ [])

abbrev pub encode_push_receiver_variable : ℕ → Bool → Outcome (List ℕ)
encode_push_receiver_variable index long =
    if not long && ltb index Bytecode.push_receiver_variable_short_range_size
    then ok (byte (Bytecode.push_receiver_variable_short_first + index) ∷ [])
    else encode_extended Bytecode.push_receiver_variable index

abbrev pub encode_store_receiver_variable : ℕ → Bool → Outcome (List ℕ)
encode_store_receiver_variable index long = encode_extended Bytecode.store_receiver_variable index

abbrev pub encode_push_literal : ℕ → Outcome (List ℕ)
encode_push_literal index =
    if ltb index Bytecode.push_literal_short_range_size
    then ok (byte (Bytecode.push_literal_short_first + index) ∷ [])
    else encode_extended Bytecode.push_literal index

abbrev pub encode_push_literal_variable : ℕ → Outcome (List ℕ)
encode_push_literal_variable index =
    if ltb index Bytecode.push_literal_variable_short_range_size
    then ok (byte (Bytecode.push_literal_variable_short_first + index) ∷ [])
    else encode_extended Bytecode.push_literal_variable index

abbrev pub encode_store_literal_variable : ℕ → Outcome (List ℕ)
encode_store_literal_variable index = encode_extended Bytecode.store_literal_variable index

abbrev pub encode_push_temporal : ℕ → Outcome (List ℕ)
encode_push_temporal index =
    if ltb index 12
    then ok (byte (Bytecode.push_temp_short_first + index) ∷ [])
    else ok (Bytecode.push_temporary ∷ byte index ∷ [])

abbrev pub encode_store_temporal : ℕ → Outcome (List ℕ)
encode_store_temporal index = ok (Bytecode.store_temporal_variable ∷ byte index ∷ [])

abbrev pub encode_pop_store_temporal : ℕ → Outcome (List ℕ)
encode_pop_store_temporal index =
    if ltb index Bytecode.pop_store_temporal_variable_short_range_size
    then ok (byte (Bytecode.pop_store_temporal_variable_short_first + index) ∷ [])
    else ok (Bytecode.pop_store_temporal_variable ∷ byte index ∷ [])

abbrev pub encode_push_array : ℕ → Outcome (List ℕ)
encode_push_array count = ok (Bytecode.push_array_with_elements ∷ byte count ∷ [])

abbrev pub encode_push_n_closure_temps : ℕ → Outcome (List ℕ)
encode_push_n_closure_temps count = ok (Bytecode.push_ntemps ∷ byte count ∷ [])

abbrev pub encode_call_primitive : ℕ → Outcome (List ℕ)
encode_call_primitive index = ok (Bytecode.call_primitive ∷ byte index ∷ byte (index / 2 ^ 8) ∷ [])

abbrev pub encode_push_temporal_in_vector : ℕ → ℕ → Outcome (List ℕ)
encode_push_temporal_in_vector index vector_index =
    ok (Bytecode.push_temporary_in_vector ∷ byte index ∷ byte vector_index ∷ [])

abbrev pub encode_store_temporal_in_vector : ℕ → ℕ → Outcome (List ℕ)
encode_store_temporal_in_vector index vector_index =
    ok (Bytecode.store_temporal_in_vector ∷ byte index ∷ byte vector_index ∷ [])

abbrev pub encode_pop_store_temporal_in_vector : ℕ → ℕ → Outcome (List ℕ)
encode_pop_store_temporal_in_vector index vector_index =
    ok (Bytecode.pop_store_temporal_in_vector ∷ byte index ∷ byte vector_index ∷ [])

-- The bytes of each kind of node that is not placed relative to a label.
unfoldable pub encode_plain : Instruction → Outcome (List ℕ)
unfolding encode_extended encode_send
encode_plain (single_bytecode b r) = encode_single_bytecode b r
encode_plain (push_receiver_variable index long) = encode_push_receiver_variable index long
encode_plain (store_receiver_variable index long) = encode_store_receiver_variable index long
encode_plain (push_literal index) = encode_push_literal index
encode_plain (push_literal_variable index) = encode_push_literal_variable index
encode_plain (store_literal_variable index) = encode_store_literal_variable index
encode_plain (push_temporal index) = encode_push_temporal index
encode_plain (store_temporal index) = encode_store_temporal index
encode_plain (pop_store_temporal index) = encode_pop_store_temporal index
encode_plain (push_array count) = encode_push_array count
encode_plain (push_n_closure_temps count) = encode_push_n_closure_temps count
encode_plain (call_primitive index) = encode_call_primitive index
encode_plain (push_temporal_in_vector index vector_index) =
    encode_push_temporal_in_vector index vector_index
encode_plain (store_temporal_in_vector index vector_index) =
    encode_store_temporal_in_vector index vector_index
encode_plain (pop_store_temporal_in_vector index vector_index) =
    encode_pop_store_temporal_in_vector index vector_index
encode_plain (send_message selector_index argument_count) =
    encode_send selector_index argument_count
encode_plain (super_send_message selector_index argument_count) = abort unimplemented
encode_plain _ = ok []

-- `PushClosure::encode`, given the size of the block.
unfoldable pub encode_closure : ℕ → ℕ → ℕ → ℤ → Outcome (List ℕ)
unfolding closure_byte tdiv wrap
encode_closure num_copied num_args num_extensions block_size = do
  a ← encode_ext_a (extend_a_value num_copied num_args)
  b ← encode_ext_b (tdiv block_size (pos 256))
  ok (
      a
      ++ b
      ++ (Bytecode.push_closure
          ∷ closure_byte num_copied num_args num_extensions
          ∷ wrap 256 block_size
          ∷ []))

-- The virtual `encode`, by the class of the node: the jumps read current positions, the closure
-- committed ones.
unfoldable pub encode_as : (ℕ → ℕ) → Labels → Node → Instruction → Outcome (List ℕ)
unfolding encode_plain encode_closure encode_jump
encode_as positions labels n (unconditional_jump d) =
    encode_jump Bytecode.jump_short_first Bytecode.jump
      (jump_delta_value (positions d) n.position n.size)
encode_as positions labels n (conditional_jump d true) =
    encode_jump Bytecode.jump_on_true_short_first Bytecode.jump_on_true
      (jump_delta_value (positions d) n.position n.size)
encode_as positions labels n (conditional_jump d false) =
    encode_jump Bytecode.jump_on_false_short_first Bytecode.jump_on_false
      (jump_delta_value (positions d) n.position n.size)
encode_as positions labels n (push_closure num_copied num_args block_end num_extensions) = do
  p ← read_label (labels block_end)
  encode_closure num_copied num_args num_extensions (jump_delta_value p n.last_position n.size)
encode_as positions labels n i = encode_plain i

unfoldable pub encode : (ℕ → ℕ) → Labels → Node → Outcome (List ℕ)
unfolding encode_as
encode positions labels n = encode_as positions labels n n.instruction
