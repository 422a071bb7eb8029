-- ===== src/Bytecode/Jumps.antt =====
-- vm/SistaV1BytecodeSet.inc: the opcodes of the jumps and stores of one byte.
use Prim.Native.Nat.{ℕ, ◌-◌, ◌+◌}

abbrev pub jump_short_first : ℕ
jump_short_first = 176

abbrev pub jump_short_range_size : ℕ
jump_short_range_size = 183 - 176 + 1

abbrev pub jump_on_true_short_first : ℕ
jump_on_true_short_first = 184

abbrev pub jump_on_true_short_range_size : ℕ
jump_on_true_short_range_size = 191 - 184 + 1

abbrev pub jump_on_false_short_first : ℕ
jump_on_false_short_first = 192

abbrev pub jump_on_false_short_range_size : ℕ
jump_on_false_short_range_size = 199 - 192 + 1

abbrev pub pop_store_receiver_variable_short_first : ℕ
pop_store_receiver_variable_short_first = 200

abbrev pub pop_store_receiver_variable_short_range_size : ℕ
pop_store_receiver_variable_short_range_size = 207 - 200 + 1

abbrev pub pop_store_temporal_variable_short_first : ℕ
pop_store_temporal_variable_short_first = 208

abbrev pub pop_store_temporal_variable_short_range_size : ℕ
pop_store_temporal_variable_short_range_size = 215 - 208 + 1

abbrev pub pop_stack_top : ℕ
pop_stack_top = 216
