-- ===== src/Assembler/Sizes.antt =====
-- The sizes of instructions: `sizeofExtA`, `sizeofExtB`, `computeMaxSize` and `computeBetterSize`
-- of vm/MethodBuilder.cpp.
use lodtalk.Prelude.{
  ℕ, zero, suc, ◌+◌, ◌*◌, ◌/◌, Bool, false, ◌&&◌, ◌||◌, not, Option, none, some, List, [], ◌∷◌, ltb,
  leb, ◌==◌, if◌then◌else◌,
}
use lodtalk.Prelude.Int.{ℤ, pos, negsuc, sub_ℕ, tdiv}
use lodtalk.Outcome.{Outcome, ok, abort, unimplemented, uninitialised, ◌>>=◌}
use lodtalk.Bytecode
use lodtalk.Assembler.Instruction.{
  Instruction, label, single_bytecode, push_receiver_variable, store_receiver_variable,
  push_literal, push_literal_variable, store_literal_variable, push_temporal, store_temporal,
  pop_store_temporal, push_array, push_n_closure_temps, call_primitive, push_temporal_in_vector,
  store_temporal_in_vector, pop_store_temporal_in_vector, push_closure, send_message,
  super_send_message, unconditional_jump, conditional_jump, Node,
}

abbrev pub extensible_bytecode_size_max : ℕ
extensible_bytecode_size_max = 16

-- `while(value) { value /= 256; res += 2; }`. A 64-bit value is 0 after eight rounds.
unfoldable pub ext_a_loop : ℕ → ℕ → ℕ → ℕ
ext_a_loop zero value res = res
ext_a_loop (suc fuel) value res =
    let rest = ext_a_loop fuel (value / 256) (res + 2) in if value == 0 then res else rest

unfoldable pub sizeof_ext_a : ℕ → ℕ
unfolding ext_a_loop
sizeof_ext_a value = ext_a_loop 8 value 0

abbrev pub is_zero : ℤ → Bool
is_zero (pos n) = n == 0
is_zero (negsuc n) = false

-- The same loop over an `int64_t`, with the division of C++.
unfoldable pub ext_b_loop : ℕ → ℤ → ℕ → ℕ
unfolding tdiv
ext_b_loop zero value res = res
ext_b_loop (suc fuel) value res =
    let rest = ext_b_loop fuel (tdiv value (pos 256)) (res + 2) in
    if is_zero value then res else rest

unfoldable pub sizeof_ext_b : ℤ → ℕ
unfolding ext_b_loop
sizeof_ext_b value = ext_b_loop 8 value 0

-- Whether a send has a one byte form.
abbrev pub is_short_send : ℕ → ℕ → Bool
is_short_send selector_index argument_count =
    (argument_count == 0 && ltb selector_index Bytecode.send_short_args0_range_size)
    || (argument_count == 1 && ltb selector_index Bytecode.send_short_args1_range_size)
    || (argument_count == 2 && ltb selector_index Bytecode.send_short_args2_range_size)

-- `PushClosure::extendAValue`
abbrev pub extend_a_value : ℕ → ℕ → ℕ
extend_a_value num_copied num_args = num_copied / 8 * 16 + num_args / 8

-- `computeMaxSize` of the classes of instructions.
abbrev pub max_size_single_bytecode : ℕ → Bool → Outcome ℕ
max_size_single_bytecode b r = ok 1

abbrev pub max_size_push_receiver_variable : ℕ → Bool → Outcome ℕ
max_size_push_receiver_variable index long =
    if not long && ltb index Bytecode.push_receiver_variable_short_range_size
    then ok 1
    else ok (2 + sizeof_ext_a (index / 256))

abbrev pub max_size_store_receiver_variable : ℕ → Bool → Outcome ℕ
max_size_store_receiver_variable index long = ok (2 + sizeof_ext_a (index / 256))

abbrev pub max_size_push_literal : ℕ → Outcome ℕ
max_size_push_literal index =
    if ltb index Bytecode.push_literal_short_range_size
    then ok 1
    else ok (2 + sizeof_ext_a (index / 256))

abbrev pub max_size_push_literal_variable : ℕ → Outcome ℕ
max_size_push_literal_variable index =
    if ltb index Bytecode.push_literal_variable_short_range_size
    then ok 1
    else ok (2 + sizeof_ext_a (index / 256))

abbrev pub max_size_store_literal_variable : ℕ → Outcome ℕ
max_size_store_literal_variable index = ok (2 + sizeof_ext_a (index / 256))

abbrev pub max_size_push_temporal : ℕ → Outcome ℕ
max_size_push_temporal index = ok (if ltb index 12 then 1 else 2)

abbrev pub max_size_store_temporal : ℕ → Outcome ℕ
max_size_store_temporal index = ok 2

abbrev pub max_size_pop_store_temporal : ℕ → Outcome ℕ
max_size_pop_store_temporal index =
    ok (if ltb index Bytecode.pop_store_temporal_variable_short_range_size then 1 else 2)

abbrev pub max_size_push_array : ℕ → Outcome ℕ
max_size_push_array count = ok 2

abbrev pub max_size_push_n_closure_temps : ℕ → Outcome ℕ
max_size_push_n_closure_temps count = ok 2

abbrev pub max_size_call_primitive : ℕ → Outcome ℕ
max_size_call_primitive index = ok 3

abbrev pub max_size_push_temporal_in_vector : ℕ → ℕ → Outcome ℕ
max_size_push_temporal_in_vector index vector_index = ok 3

abbrev pub max_size_store_temporal_in_vector : ℕ → ℕ → Outcome ℕ
max_size_store_temporal_in_vector index vector_index = ok 3

abbrev pub max_size_pop_store_temporal_in_vector : ℕ → ℕ → Outcome ℕ
max_size_pop_store_temporal_in_vector index vector_index = ok 3

abbrev pub max_size_push_closure : ℕ → ℕ → ℕ → ℕ → Outcome ℕ
max_size_push_closure num_copied num_args block_end num_extensions =
    ok (3 + sizeof_ext_a (extend_a_value num_copied num_args) + extensible_bytecode_size_max)

abbrev pub max_size_send_message : ℕ → ℕ → Outcome ℕ
max_size_send_message selector_index argument_count =
    if is_short_send selector_index argument_count
    then ok 1
    else if ltb Bytecode.send_argument_count_mask argument_count
    then abort unimplemented
    else if ltb Bytecode.send_literal_index_mask selector_index
    then abort unimplemented
    else ok 2

abbrev pub max_size_super_send_message : ℕ → ℕ → Outcome ℕ
max_size_super_send_message selector_index argument_count = abort unimplemented

abbrev pub max_size_unconditional_jump : ℕ → Outcome ℕ
max_size_unconditional_jump destination = ok (2 + extensible_bytecode_size_max)

abbrev pub max_size_conditional_jump : ℕ → Bool → Outcome ℕ
max_size_conditional_jump destination condition = ok (2 + extensible_bytecode_size_max)

unfoldable pub compute_max_size : Instruction → Outcome ℕ
unfolding sizeof_ext_a
compute_max_size (label id) = ok 0
compute_max_size (single_bytecode b r) = max_size_single_bytecode b r
compute_max_size (push_receiver_variable index long) = max_size_push_receiver_variable index long
compute_max_size (store_receiver_variable index long) = max_size_store_receiver_variable index long
compute_max_size (push_literal index) = max_size_push_literal index
compute_max_size (push_literal_variable index) = max_size_push_literal_variable index
compute_max_size (store_literal_variable index) = max_size_store_literal_variable index
compute_max_size (push_temporal index) = max_size_push_temporal index
compute_max_size (store_temporal index) = max_size_store_temporal index
compute_max_size (pop_store_temporal index) = max_size_pop_store_temporal index
compute_max_size (push_array count) = max_size_push_array count
compute_max_size (push_n_closure_temps count) = max_size_push_n_closure_temps count
compute_max_size (call_primitive index) = max_size_call_primitive index
compute_max_size (push_temporal_in_vector index vector_index) =
    max_size_push_temporal_in_vector index vector_index
compute_max_size (store_temporal_in_vector index vector_index) =
    max_size_store_temporal_in_vector index vector_index
compute_max_size (pop_store_temporal_in_vector index vector_index) =
    max_size_pop_store_temporal_in_vector index vector_index
compute_max_size (push_closure num_copied num_args block_end num_extensions) =
    max_size_push_closure num_copied num_args block_end num_extensions
compute_max_size (send_message selector_index argument_count) =
    max_size_send_message selector_index argument_count
compute_max_size (super_send_message selector_index argument_count) =
    max_size_super_send_message selector_index argument_count
compute_max_size (unconditional_jump destination) = max_size_unconditional_jump destination
compute_max_size (conditional_jump destination condition) =
    max_size_conditional_jump destination condition

-- `destination - position - size`: differences of `size_t` read as a signed number. A position is a
-- sum of sizes of at most 35 bytes each, far below 2 ^ 63, so the signed difference is exact.
abbrev pub jump_delta_value : ℕ → ℕ → ℕ → ℤ
jump_delta_value destination position size = sub_ℕ destination (position + size)

-- `1 <= delta && delta <= 8`
abbrev pub is_short_delta : ℤ → Bool
is_short_delta (pos n) = leb 1 n && leb n 8
is_short_delta (negsuc n) = false

-- The part that `computeBetterSize` of both jumps shares.
unfoldable pub jump_better_size : ℤ → ℕ
unfolding sizeof_ext_b tdiv
jump_better_size delta =
    if is_zero delta
    then 0
    else if is_short_delta delta
    then 1
    else 2 + sizeof_ext_b (tdiv delta (pos 256))

-- A label in the stream is found at `p`; any other node leaves what was found.
abbrev pub mark : Instruction → ℕ → ℕ → Option ℕ → Option ℕ
mark (label j) id p found = if j == id then some p else found
mark _ id p found = found

-- The committed position of each label. A label stands for one object, so where it is put twice
-- the last place counts; `none` is a label in no stream, whose field was never set.
unfoldable pub last_position_from : List Node → ℕ → Option ℕ → Option ℕ
last_position_from [] id found = found
last_position_from (n ∷ ns) id found =
    last_position_from ns id (mark n.instruction id n.last_position found)

abbrev pub Labels : Type 0
Labels = ℕ → Option ℕ

unfoldable pub label_last_position : List Node → Labels
unfolding last_position_from
label_last_position ns id = last_position_from ns id none

abbrev pub read_label : Option ℕ → Outcome ℕ
read_label none = abort uninitialised
read_label (some p) = ok p

-- The virtual `computeBetterSize`, by the class of the node.
unfoldable pub better_size : Labels → Node → Instruction → Outcome ℕ
unfolding compute_max_size jump_better_size sizeof_ext_a sizeof_ext_b tdiv
better_size labels n (unconditional_jump d) = do
  p ← read_label (labels d)
  ok (jump_better_size (jump_delta_value p n.last_position n.last_size))
better_size labels n (conditional_jump d condition) = do
  p ← read_label (labels d)
  ok (jump_better_size (jump_delta_value p n.last_position n.last_size))
better_size labels n (push_closure num_copied num_args block_end num_extensions) = do
  p ← read_label (labels block_end)
  ok (
      3
      + sizeof_ext_a (extend_a_value num_copied num_args)
      + sizeof_ext_b (tdiv (jump_delta_value p n.last_position n.size) (pos 256)))
better_size labels n i = compute_max_size i

-- `computeBetterSize`, given where the labels were at the last commit.
unfoldable pub compute_better_size : Labels → Node → Outcome ℕ
unfolding better_size
compute_better_size labels n = better_size labels n n.instruction
