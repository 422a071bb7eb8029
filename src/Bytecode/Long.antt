-- ===== src/Bytecode/Long.antt =====
-- vm/SistaV1BytecodeSet.inc: the opcodes of the instructions of two and of three bytes.
use Prim.Native.Nat.{ℕ}

abbrev pub extend_a : ℕ
extend_a = 224

abbrev pub extend_b : ℕ
extend_b = 225

abbrev pub push_receiver_variable : ℕ
push_receiver_variable = 226

abbrev pub push_literal_variable : ℕ
push_literal_variable = 227

abbrev pub push_literal : ℕ
push_literal = 228

abbrev pub push_temporary : ℕ
push_temporary = 229

abbrev pub push_ntemps : ℕ
push_ntemps = 230

abbrev pub push_integer : ℕ
push_integer = 231

abbrev pub push_character : ℕ
push_character = 232

abbrev pub push_array_with_elements : ℕ
push_array_with_elements = 233

abbrev pub send : ℕ
send = 234

abbrev pub super_send : ℕ
super_send = 235

abbrev pub trap_on_behavior : ℕ
trap_on_behavior = 236

abbrev pub jump : ℕ
jump = 237

abbrev pub jump_on_true : ℕ
jump_on_true = 238

abbrev pub jump_on_false : ℕ
jump_on_false = 239

abbrev pub pop_store_receiver_variable : ℕ
pop_store_receiver_variable = 240

abbrev pub pop_store_literal_variable : ℕ
pop_store_literal_variable = 241

abbrev pub pop_store_temporal_variable : ℕ
pop_store_temporal_variable = 242

abbrev pub store_receiver_variable : ℕ
store_receiver_variable = 243

abbrev pub store_literal_variable : ℕ
store_literal_variable = 244

abbrev pub store_temporal_variable : ℕ
store_temporal_variable = 245

abbrev pub call_primitive : ℕ
call_primitive = 248

abbrev pub push_closure : ℕ
push_closure = 250

abbrev pub push_temporary_in_vector : ℕ
push_temporary_in_vector = 251

abbrev pub store_temporal_in_vector : ℕ
store_temporal_in_vector = 252

abbrev pub pop_store_temporal_in_vector : ℕ
pop_store_temporal_in_vector = 253
