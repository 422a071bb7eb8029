-- ===== src/Bytecode/OneByte.antt =====
-- vm/SistaV1BytecodeSet.inc: the opcodes of the pushes, the returns and the no-operation of one byte.
use Prim.Native.Nat.{ℕ, ◌-◌, ◌+◌}

abbrev pub push_receiver_variable_short_first : ℕ
push_receiver_variable_short_first = 0

abbrev pub push_receiver_variable_short_range_size : ℕ
push_receiver_variable_short_range_size = 15 - 0 + 1

abbrev pub push_literal_variable_short_first : ℕ
push_literal_variable_short_first = 16

abbrev pub push_literal_variable_short_range_size : ℕ
push_literal_variable_short_range_size = 31 - 16 + 1

abbrev pub push_literal_short_first : ℕ
push_literal_short_first = 32

abbrev pub push_literal_short_range_size : ℕ
push_literal_short_range_size = 63 - 32 + 1

abbrev pub push_temp_short_first : ℕ
push_temp_short_first = 64

abbrev pub push_temp_short_range_size : ℕ
push_temp_short_range_size = 75 - 64 + 1

abbrev pub push_receiver : ℕ
push_receiver = 76

abbrev pub push_true : ℕ
push_true = 77

abbrev pub push_false : ℕ
push_false = 78

abbrev pub push_nil : ℕ
push_nil = 79

abbrev pub push_zero : ℕ
push_zero = 80

abbrev pub push_one : ℕ
push_one = 81

abbrev pub push_this_context : ℕ
push_this_context = 82

abbrev pub duplicate_stack_top : ℕ
duplicate_stack_top = 83

abbrev pub return_receiver : ℕ
return_receiver = 88

abbrev pub return_true : ℕ
return_true = 89

abbrev pub return_false : ℕ
return_false = 90

abbrev pub return_nil : ℕ
return_nil = 91

abbrev pub return_top : ℕ
return_top = 92

abbrev pub block_return_nil : ℕ
block_return_nil = 93

abbrev pub block_return_top : ℕ
block_return_top = 94

abbrev pub nop : ℕ
nop = 95
