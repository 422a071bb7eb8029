-- ===== src/Interpreter/Handlers.antt =====
-- The bytecode handlers of vm/StackInterpreter.cpp up to the point where all operands are fetched.
-- A handler's opcode stands at `p`, and on entry the source's `pc` is `p + 1`. `extendA` wraps at 64
-- bits; `extendB` is signed, and its overflow, which C++ leaves undefined, is out of the model.
use Prim.Native.Nat.{bit_and, bit_or}
use lodtalk.Prelude.{
  ℕ, ◌+◌, ◌-◌, ◌*◌, ◌/◌, ◌%◌, ◌^◌, Bool, not, Option, none, some, List, ltb, ◌==◌, if◌then◌else◌,
  get_elem?,
}
use lodtalk.Prelude.Int.{ℤ, pos, negsuc, ◌+ℤ◌, ◌*ℤ◌}
use lodtalk.Outcome.{Outcome, ok, abort, uninitialised, ◌>>=◌}
use lodtalk.Bytecode
use lodtalk.Interpreter.Operation.{
  Operation, push_array, send, extension, go_to, branch, push_closure, inline_primitive, primitive,
  Decoded,
}

abbrev byte_or : Option ℕ → Outcome ℕ
byte_or none = abort uninitialised
byte_or (some b) = ok b

-- `fetchByte` and `fetchSByte` at a position.
abbrev pub fetch_byte : List ℕ → ℕ → Outcome ℕ
fetch_byte code pc = byte_or (get_elem? code pc)

abbrev pub signed8 : ℕ → ℤ
signed8 b = if ltb b 128 then pos b else negsuc (255 - b)

abbrev pub fetch_sbyte : List ℕ → ℕ → Outcome ℤ
fetch_sbyte code pc = do b ← fetch_byte code pc; ok (signed8 b)

-- A value of one byte with extension A, as `uint64_t`, and with extension B.
abbrev pub extended_a : ℕ → ℕ → ℕ
extended_a b a = (b + a * 256) % 2 ^ 64

unfoldable pub extended_b : ℤ → ℤ → ℤ
unfolding ◌+ℤ◌ ◌*ℤ◌
extended_b d b = d +ℤ b *ℤ pos 256

-- A handler that fetches no operand leaves the extensions as they are.
abbrev pub without_operand : Operation → ℕ → ℕ → ℤ → Outcome Decoded
without_operand o p a b =
    ok (record { operation = o; next = pos (p + 1); extend_a = a; extend_b = b })

-- `interpretJumpShort`: `++delta; pc += delta`.
abbrev pub interpret_jump_short : ℕ → ℕ → ℕ → ℤ → Outcome Decoded
interpret_jump_short delta p a b = without_operand (go_to (pos (p + 1 + (delta + 1)))) p a b

-- `interpretJumpOnTrueShort` and `interpretJumpOnFalseShort`: `pc` is past the prefetched opcode.
abbrev pub interpret_jump_on_short : Bool → ℕ → ℕ → ℕ → ℤ → Outcome Decoded
interpret_jump_on_short condition delta p a b =
    without_operand (branch condition (pos (p + 2 + delta))) p a b

unfoldable pub interpret_extend_a : List ℕ → ℕ → ℕ → ℤ → Outcome Decoded
interpret_extend_a code p a b = do
  byte ← fetch_byte code (p + 1)
  ok record {
    operation = extension;
    next = pos (p + 2);
    extend_a = (a * 256 + byte) % 2 ^ 64;
    extend_b = b;
  }

unfoldable pub interpret_extend_b : List ℕ → ℕ → ℕ → ℤ → Outcome Decoded
unfolding extended_b
interpret_extend_b code p a b = do
  byte ← fetch_sbyte code (p + 1)
  ok record {
    operation = extension;
    next = pos (p + 2);
    extend_a = a;
    extend_b = extended_b byte b;
  }

-- The handlers with one byte and extension A, by what they do with the index.
unfoldable pub interpret_indexed : (ℕ → Operation) → List ℕ → ℕ → ℕ → ℤ → Outcome Decoded
interpret_indexed o code p a b = do
  byte ← fetch_byte code (p + 1)
  ok record { operation = o (extended_a byte a); next = pos (p + 2); extend_a = 0; extend_b = b }

-- The handlers with one byte that leave the extensions.
unfoldable pub interpret_byte : (ℕ → Operation) → List ℕ → ℕ → ℕ → ℤ → Outcome Decoded
interpret_byte o code p a b = do
  byte ← fetch_byte code (p + 1)
  ok record { operation = o byte; next = pos (p + 2); extend_a = a; extend_b = b }

-- `interpretPushArrayWithElements`
abbrev pub array_operation : ℕ → Operation
array_operation size_and_flag =
    push_array (bit_and size_and_flag 127) (not (bit_and size_and_flag 128 == 0))

-- The handlers of two bytes: an index and the index of a vector.
unfoldable pub interpret_in_vector : (ℕ → ℕ → Operation) → List ℕ → ℕ → ℕ → ℤ → Outcome Decoded
interpret_in_vector o code p a b = do
  temporal_index ← fetch_byte code (p + 1)
  vector_index ← fetch_byte code (p + 2)
  ok record {
    operation = o temporal_index vector_index;
    next = pos (p + 3);
    extend_a = a;
    extend_b = b;
  }

-- The handlers of one signed byte with extension B.
unfoldable pub interpret_signed : (ℤ → Operation) → List ℕ → ℕ → ℕ → ℤ → Outcome Decoded
unfolding extended_b
interpret_signed o code p a b = do
  byte ← fetch_sbyte code (p + 1)
  ok record {
    operation = o (extended_b byte b);
    next = pos (p + 2);
    extend_a = a;
    extend_b = pos 0;
  }

-- `interpretSend` and `interpretSuperSend`
unfoldable pub interpret_send : Bool → List ℕ → ℕ → ℕ → ℤ → Outcome Decoded
unfolding ◌+ℤ◌ ◌*ℤ◌
interpret_send super_lookup code p a b = do
  data_byte ← fetch_byte code (p + 1)
  let argument_count =
      pos (bit_and data_byte Bytecode.send_argument_count_mask)
      +ℤ b *ℤ pos Bytecode.send_argument_count_count
  let literal_index =
      (bit_and (data_byte / 2 ^ Bytecode.send_literal_index_shift) Bytecode.send_literal_index_mask
        + a * Bytecode.send_literal_index_count)
      % 2 ^ 64
  ok record {
    operation = send literal_index argument_count super_lookup;
    next = pos (p + 2);
    extend_a = 0;
    extend_b = pos 0;
  }

-- `interpretJump`: from `p + 2`, in both directions.
abbrev pub jump_operation : ℕ → ℤ → Operation
jump_operation p delta = go_to (pos (p + 2) +ℤ delta)

-- `interpretJumpOnTrue` and `interpretJumpOnFalse`: one is taken off the distance, since `pc` is past
-- the prefetched opcode, `p + 3`.
abbrev pub jump_on_operation : Bool → ℕ → ℤ → Operation
jump_on_operation condition p delta = branch condition (pos (p + 3) +ℤ (delta +ℤ negsuc 0))

-- `interpretPushClosure`
unfoldable pub interpret_push_closure : List ℕ → ℕ → ℕ → ℤ → Outcome Decoded
unfolding ◌+ℤ◌ extended_b
interpret_push_closure code p a b = do
  first_byte ← fetch_byte code (p + 1)
  size_byte ← fetch_byte code (p + 2)
  let num_copied =
      bit_and (first_byte / 2 ^ Bytecode.push_closure_num_copied_shift)
        Bytecode.push_closure_num_copied_mask
      + a / 16 * 8
  let num_args =
      bit_and (first_byte / 2 ^ Bytecode.push_closure_num_args_shift)
        Bytecode.push_closure_num_args_mask
      + a % 16 * 8
  ok record {
    operation = push_closure num_copied num_args (p + 3);
    next = pos (p + 3) +ℤ extended_b (pos size_byte) b;
    extend_a = 0;
    extend_b = pos 0;
  }

-- `interpretCallPrimitive`; a number of 16 bits without its upper bit is below 2 ^ 15.
unfoldable pub interpret_call_primitive : List ℕ → ℕ → ℕ → ℤ → Outcome Decoded
interpret_call_primitive code p a b = do
  low ← fetch_byte code (p + 1)
  high ← fetch_byte code (p + 2)
  let primitive_index = bit_or low (high * 2 ^ 8)
  let index = primitive_index % 2 ^ 15
  ok record {
    operation =
        if bit_and primitive_index (2 ^ 15) == 0 then primitive index else inline_primitive index;
    next = pos (p + 3);
    extend_a = a;
    extend_b = b;
  }
