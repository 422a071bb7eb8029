-- ===== src/Interpreter/Decode.antt =====
-- The `switch` of vm/BytecodeSetDispatchTable.inc, and one decoding round of `interpret` in
-- vm/StackInterpreter.cpp.
use lodtalk.Prelude.{ℕ, ◌-◌, true, false, ◌||◌, List, ltb, ◌==◌, if◌then◌else◌}
use lodtalk.Prelude.Int.{ℤ}
use lodtalk.Outcome.{Outcome, abort, unimplemented, interpreter_error, ◌>>=◌}
use lodtalk.Bytecode
use lodtalk.Interpreter.Operation.{
  plain, push_receiver_variable, push_long_receiver_variable, push_literal_variable, push_literal,
  push_temporary, push_nils, set_instance_variable, set_temporary, store_instance_variable,
  store_literal_variable, store_temporary, push_integer, push_character, send, push_in_vector,
  store_in_vector, pop_store_in_vector, Decoded,
}
use lodtalk.Interpreter.Handlers.{
  fetch_byte, without_operand, interpret_jump_short, interpret_jump_on_short, interpret_extend_a,
  interpret_extend_b, interpret_indexed, interpret_byte, array_operation, interpret_in_vector,
  interpret_signed, interpret_send, jump_operation, jump_on_operation, interpret_push_closure,
  interpret_call_primitive,
}

-- Opcodes below 128: no operands.
unfoldable pub dispatch_push : ℕ → ℕ → ℕ → ℤ → Outcome Decoded
dispatch_push opcode p a b =
    if ltb opcode 16
    then without_operand (push_receiver_variable opcode) p a b
    else if ltb opcode 32
    then without_operand (push_literal_variable (opcode - 16)) p a b
    else if ltb opcode 64
    then without_operand (push_literal (opcode - 32)) p a b
    else if ltb opcode 76
    then without_operand (push_temporary (opcode - 64)) p a b
    else if ltb opcode 84
    then without_operand (plain opcode) p a b
    else if ltb opcode 88 || opcode == 120
    then abort interpreter_error
    else without_operand (plain opcode) p a b

-- Opcodes from 128 to 223: no operands.
unfoldable pub dispatch_short : ℕ → ℕ → ℕ → ℤ → Outcome Decoded
dispatch_short opcode p a b =
    if ltb opcode 144
    then without_operand (send (opcode - 128) (ℤ.pos 0) false) p a b
    else if ltb opcode 160
    then without_operand (send (opcode - 144) (ℤ.pos 1) false) p a b
    else if ltb opcode 176
    then without_operand (send (opcode - 160) (ℤ.pos 2) false) p a b
    else if ltb opcode 184
    then interpret_jump_short (opcode - 176) p a b
    else if ltb opcode 192
    then interpret_jump_on_short true (opcode - 184) p a b
    else if ltb opcode 200
    then interpret_jump_on_short false (opcode - 192) p a b
    else if ltb opcode 208
    then without_operand (set_instance_variable (opcode - 200)) p a b
    else if ltb opcode 216
    then without_operand (set_temporary (opcode - 208)) p a b
    else if opcode == Bytecode.pop_stack_top
    then without_operand (plain opcode) p a b
    else abort interpreter_error

-- Opcodes from 224 on: one or two operand bytes.
unfoldable pub dispatch_long : ℕ → List ℕ → ℕ → ℕ → ℤ → Outcome Decoded
unfolding interpret_extend_a interpret_extend_b
dispatch_long opcode code p a b =
    if opcode == 224
    then interpret_extend_a code p a b
    else if opcode == 225
    then interpret_extend_b code p a b
    else if opcode == 226
    then interpret_indexed push_long_receiver_variable code p a b
    else if opcode == 227
    then interpret_indexed push_literal_variable code p a b
    else if opcode == 228
    then interpret_indexed push_literal code p a b
    else if opcode == 229
    then interpret_byte push_temporary code p a b
    else if opcode == 230
    then interpret_byte push_nils code p a b
    else if opcode == 231
    then interpret_signed push_integer code p a b
    else if opcode == 232
    then interpret_signed push_character code p a b
    else if opcode == 233
    then interpret_byte array_operation code p a b
    else if opcode == 234
    then interpret_send false code p a b
    else if opcode == 235
    then interpret_send true code p a b
    else if opcode == 237
    then interpret_signed (jump_operation p) code p a b
    else if opcode == 238
    then interpret_signed (jump_on_operation true p) code p a b
    else if opcode == 239
    then interpret_signed (jump_on_operation false p) code p a b
    else if opcode == 242
    then interpret_byte set_temporary code p a b
    else if opcode == 243
    then interpret_indexed store_instance_variable code p a b
    else if opcode == 244
    then interpret_indexed store_literal_variable code p a b
    else if opcode == 245
    then interpret_byte store_temporary code p a b
    else if opcode == 248
    then interpret_call_primitive code p a b
    else if opcode == 250
    then interpret_push_closure code p a b
    else if opcode == 251
    then interpret_in_vector push_in_vector code p a b
    else if opcode == 252
    then interpret_in_vector store_in_vector code p a b
    else if opcode == 253
    then interpret_in_vector pop_store_in_vector code p a b
    else if opcode == 236 || opcode == 240 || opcode == 241
    then abort unimplemented
    else abort interpreter_error

-- The opcode at `p` and its operands, with the extensions that earlier opcodes have left.
unfoldable pub decode : List ℕ → ℕ → ℕ → ℤ → Outcome Decoded
unfolding dispatch_push dispatch_short dispatch_long
decode code p a b = do
  opcode ← fetch_byte code p
  if ltb opcode 128
      then dispatch_push opcode p a b
      else if ltb opcode 224
      then dispatch_short opcode p a b
      else dispatch_long opcode code p a b
