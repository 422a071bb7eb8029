-- ===== src/Assembler/Builder/Methods.antt =====
-- The methods of `Assembler` in vm/MethodBuilder.cpp that add one instruction. The opcodes carry the
-- same names in `Bytecode`.
use lodtalk.Prelude.{ℕ, true, false}
use lodtalk.Bytecode
use lodtalk.Assembler.Instruction.{Instruction, single_bytecode}
use lodtalk.Assembler.Builder.{Assembler, add_instruction, add_literal}

abbrev pub return_receiver : Assembler → Assembler
return_receiver a = add_instruction (single_bytecode Bytecode.return_receiver true) a

abbrev pub return_true : Assembler → Assembler
return_true a = add_instruction (single_bytecode Bytecode.return_true true) a

abbrev pub return_false : Assembler → Assembler
return_false a = add_instruction (single_bytecode Bytecode.return_false true) a

abbrev pub return_nil : Assembler → Assembler
return_nil a = add_instruction (single_bytecode Bytecode.return_nil true) a

abbrev pub return_top : Assembler → Assembler
return_top a = add_instruction (single_bytecode Bytecode.return_top true) a

abbrev pub block_return_nil : Assembler → Assembler
block_return_nil a = add_instruction (single_bytecode Bytecode.block_return_nil true) a

abbrev pub block_return_top : Assembler → Assembler
block_return_top a = add_instruction (single_bytecode Bytecode.block_return_top true) a

abbrev pub pop_stack_top : Assembler → Assembler
pop_stack_top a = add_instruction (single_bytecode Bytecode.pop_stack_top false) a

abbrev pub duplicate_stack_top : Assembler → Assembler
duplicate_stack_top a = add_instruction (single_bytecode Bytecode.duplicate_stack_top false) a

abbrev pub push_receiver : Assembler → Assembler
push_receiver a = add_instruction (single_bytecode Bytecode.push_receiver false) a

abbrev pub push_this_context : Assembler → Assembler
push_this_context a = add_instruction (single_bytecode Bytecode.push_this_context false) a

abbrev pub push_nil : Assembler → Assembler
push_nil a = add_instruction (single_bytecode Bytecode.push_nil false) a

abbrev pub push_true : Assembler → Assembler
push_true a = add_instruction (single_bytecode Bytecode.push_true false) a

abbrev pub push_false : Assembler → Assembler
push_false a = add_instruction (single_bytecode Bytecode.push_false false) a

abbrev pub push_one : Assembler → Assembler
push_one a = add_instruction (single_bytecode Bytecode.push_one false) a

abbrev pub push_zero : Assembler → Assembler
push_zero a = add_instruction (single_bytecode Bytecode.push_zero false) a

abbrev pub send_value : Assembler → Assembler
send_value a = add_instruction (single_bytecode Bytecode.special_message_value false) a

abbrev pub send_value_with_arg : Assembler → Assembler
send_value_with_arg a = add_instruction (single_bytecode Bytecode.special_message_value_arg false) a

abbrev pub add : Assembler → Assembler
add a = add_instruction (single_bytecode Bytecode.special_message_add false) a

abbrev pub greater_than : Assembler → Assembler
greater_than a = add_instruction (single_bytecode Bytecode.special_message_greater_than false) a

abbrev pub greater_equal : Assembler → Assembler
greater_equal a = add_instruction (single_bytecode Bytecode.special_message_greater_equal false) a

abbrev pub less_equal : Assembler → Assembler
less_equal a = add_instruction (single_bytecode Bytecode.special_message_less_equal false) a

abbrev pub less_than : Assembler → Assembler
less_than a = add_instruction (single_bytecode Bytecode.special_message_less_than false) a

abbrev pub equal : Assembler → Assembler
equal a = add_instruction (single_bytecode Bytecode.special_message_equal false) a

abbrev pub not_equal : Assembler → Assembler
not_equal a = add_instruction (single_bytecode Bytecode.special_message_not_equal false) a

abbrev pub identity_equal : Assembler → Assembler
identity_equal a = add_instruction (single_bytecode Bytecode.special_message_identity_equal false) a

abbrev pub push_literal_index : ℕ → Assembler → Assembler
push_literal_index literal_index a = add_instruction (Instruction.push_literal literal_index) a

abbrev pub push_literal_variable_index : ℕ → Assembler → Assembler
push_literal_variable_index literal_variable_index a =
    add_instruction (Instruction.push_literal_variable literal_variable_index) a

abbrev pub push_temporal : ℕ → Assembler → Assembler
push_temporal temporal_index a = add_instruction (Instruction.push_temporal temporal_index) a

abbrev pub push_new_array : ℕ → Assembler → Assembler
push_new_array array_size a = add_instruction (Instruction.push_array array_size) a

abbrev pub push_temporal_in_vector : ℕ → ℕ → Assembler → Assembler
push_temporal_in_vector temporal_index vector_index a =
    add_instruction (Instruction.push_temporal_in_vector temporal_index vector_index) a

abbrev pub store_literal_variable_index : ℕ → Assembler → Assembler
store_literal_variable_index literal_variable_index a =
    add_instruction (Instruction.store_literal_variable literal_variable_index) a

abbrev pub store_temporal : ℕ → Assembler → Assembler
store_temporal temporal_index a = add_instruction (Instruction.store_temporal temporal_index) a

abbrev pub pop_store_temporal : ℕ → Assembler → Assembler
pop_store_temporal temporal_index a =
    add_instruction (Instruction.pop_store_temporal temporal_index) a

abbrev pub push_n_closure_temps : ℕ → Assembler → Assembler
push_n_closure_temps temporal_count a =
    add_instruction (Instruction.push_n_closure_temps temporal_count) a

abbrev pub store_temporal_in_vector : ℕ → ℕ → Assembler → Assembler
store_temporal_in_vector temporal_index vector_index a =
    add_instruction (Instruction.store_temporal_in_vector temporal_index vector_index) a

abbrev pub pop_store_temporal_in_vector : ℕ → ℕ → Assembler → Assembler
pop_store_temporal_in_vector temporal_index vector_index a =
    add_instruction (Instruction.pop_store_temporal_in_vector temporal_index vector_index) a

abbrev pub push_closure : ℕ → ℕ → ℕ → ℕ → Assembler → Assembler
push_closure num_copied num_args block_end num_extensions a =
    add_instruction (Instruction.push_closure num_copied num_args block_end num_extensions) a

abbrev pub call_primitive : ℕ → Assembler → Assembler
call_primitive primitive_index a = add_instruction (Instruction.call_primitive primitive_index) a

abbrev pub jump : ℕ → Assembler → Assembler
jump destination a = add_instruction (Instruction.unconditional_jump destination) a

abbrev pub jump_on_true : ℕ → Assembler → Assembler
jump_on_true destination a = add_instruction (Instruction.conditional_jump destination true) a

abbrev pub jump_on_false : ℕ → Assembler → Assembler
jump_on_false destination a = add_instruction (Instruction.conditional_jump destination false) a

abbrev pub push_receiver_variable_index : ℕ → Assembler → Assembler
push_receiver_variable_index variable_index a =
    add_instruction
      (Instruction.push_receiver_variable variable_index a.using_long_instance_variable_accessors) a

abbrev pub store_receiver_variable_index : ℕ → Assembler → Assembler
store_receiver_variable_index variable_index a =
    add_instruction
      (Instruction.store_receiver_variable variable_index a.using_long_instance_variable_accessors)
      a

-- The methods that take an oop: they add the literal first.
unfoldable pub push_literal_variable : ℕ → Assembler → Assembler
unfolding add_literal
push_literal_variable literal_variable a =
    let (i, b) = add_literal literal_variable a in push_literal_variable_index i b

unfoldable pub store_literal_variable : ℕ → Assembler → Assembler
unfolding add_literal
store_literal_variable literal_variable a =
    let (i, b) = add_literal literal_variable a in store_literal_variable_index i b

unfoldable pub super_send : ℕ → ℕ → Assembler → Assembler
unfolding add_literal
super_send selector argument_count a =
    let (i, b) = add_literal selector a in
    add_instruction (Instruction.super_send_message i argument_count) b
