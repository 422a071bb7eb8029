-- ===== src/Bytecode/Messages.antt =====
-- vm/SistaV1BytecodeSet.inc: the opcodes of the messages of one byte.
use Prim.Native.Nat.{ℕ, ◌-◌, ◌+◌}

abbrev pub special_message_add : ℕ
special_message_add = 96

abbrev pub special_message_minus : ℕ
special_message_minus = 97

abbrev pub special_message_less_than : ℕ
special_message_less_than = 98

abbrev pub special_message_greater_than : ℕ
special_message_greater_than = 99

abbrev pub special_message_less_equal : ℕ
special_message_less_equal = 100

abbrev pub special_message_greater_equal : ℕ
special_message_greater_equal = 101

abbrev pub special_message_equal : ℕ
special_message_equal = 102

abbrev pub special_message_not_equal : ℕ
special_message_not_equal = 103

abbrev pub special_message_multiply : ℕ
special_message_multiply = 104

abbrev pub special_message_divide : ℕ
special_message_divide = 105

abbrev pub special_message_remainder : ℕ
special_message_remainder = 106

abbrev pub special_message_make_point : ℕ
special_message_make_point = 107

abbrev pub special_message_bit_shift : ℕ
special_message_bit_shift = 108

abbrev pub special_message_integer_division : ℕ
special_message_integer_division = 109

abbrev pub special_message_bit_and : ℕ
special_message_bit_and = 110

abbrev pub special_message_bit_or : ℕ
special_message_bit_or = 111

abbrev pub special_message_at : ℕ
special_message_at = 112

abbrev pub special_message_at_put : ℕ
special_message_at_put = 113

abbrev pub special_message_size : ℕ
special_message_size = 114

abbrev pub special_message_next : ℕ
special_message_next = 115

abbrev pub special_message_next_put : ℕ
special_message_next_put = 116

abbrev pub special_message_at_end : ℕ
special_message_at_end = 117

abbrev pub special_message_identity_equal : ℕ
special_message_identity_equal = 118

abbrev pub special_message_class : ℕ
special_message_class = 119

abbrev pub special_message_value : ℕ
special_message_value = 121

abbrev pub special_message_value_arg : ℕ
special_message_value_arg = 122

abbrev pub special_message_do : ℕ
special_message_do = 123

abbrev pub special_message_new : ℕ
special_message_new = 124

abbrev pub special_message_new_array : ℕ
special_message_new_array = 125

abbrev pub special_message_x : ℕ
special_message_x = 126

abbrev pub special_message_y : ℕ
special_message_y = 127

abbrev pub send_short_args0_first : ℕ
send_short_args0_first = 128

abbrev pub send_short_args0_range_size : ℕ
send_short_args0_range_size = 143 - 128 + 1

abbrev pub send_short_args1_first : ℕ
send_short_args1_first = 144

abbrev pub send_short_args1_range_size : ℕ
send_short_args1_range_size = 159 - 144 + 1

abbrev pub send_short_args2_first : ℕ
send_short_args2_first = 160

abbrev pub send_short_args2_range_size : ℕ
send_short_args2_range_size = 175 - 160 + 1
