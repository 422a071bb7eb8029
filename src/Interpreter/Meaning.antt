-- ===== src/Interpreter/Meaning.antt =====
-- What an instruction of the assembler (vm/MethodBuilder.cpp) means to the interpreter
-- (vm/StackInterpreter.cpp): the reference for its encoding.
use lodtalk.Prelude.{
  ℕ, ◌+◌, ◌^◌, ◌≤◌, ◌<◌, ◌⊎◌, ◌≡◌, false, ◌&&◌, not, List, ◌++◌, ltb, if◌then◌else◌, length,
}
use lodtalk.Prelude.Int.{pos}
use lodtalk.Outcome.{Outcome, ok}
use lodtalk.Assembler.Instruction.{
  Instruction, single_bytecode, push_receiver_variable, store_receiver_variable, push_literal,
  push_literal_variable, store_literal_variable, push_temporal, store_temporal, pop_store_temporal,
  push_array, push_n_closure_temps, call_primitive, push_temporal_in_vector,
  store_temporal_in_vector, pop_store_temporal_in_vector, send_message,
}
use lodtalk.Interpreter.Operation.{Operation}
use lodtalk.Interpreter.Decode.{decode}

-- The instructions whose fields fit their encoding, other than jumps, closures and labels.
abbrev pub IsEncodable : Instruction → Type 0
IsEncodable (single_bytecode b r) =
    ((76 ≤ b) × (b < 84)) ⊎ ((88 ≤ b) × (b < 120)) ⊎ ((121 ≤ b) × (b < 128)) ⊎ (b ≡ 216)
IsEncodable (push_receiver_variable i long) = i < 256
IsEncodable (store_receiver_variable i long) = i < 256
IsEncodable (push_literal i) = i < 256
IsEncodable (push_literal_variable i) = i < 256
IsEncodable (store_literal_variable i) = i < 256
IsEncodable (push_temporal i) = i < 256
IsEncodable (store_temporal i) = i < 256
IsEncodable (pop_store_temporal i) = i < 256
IsEncodable (push_array n) = n < 128
IsEncodable (push_n_closure_temps n) = n < 256
IsEncodable (call_primitive i) = i < 2 ^ 15
IsEncodable (push_temporal_in_vector i v) = (i < 256) × (v < 256)
IsEncodable (store_temporal_in_vector i v) = (i < 256) × (v < 256)
IsEncodable (pop_store_temporal_in_vector i v) = (i < 256) × (v < 256)
IsEncodable (send_message s n) = (s < 32) × (n < 8)
IsEncodable _ = ⊥

abbrev pub meaning : Instruction → Operation
meaning (single_bytecode b r) = Operation.plain b
meaning (push_receiver_variable i long) =
    if not long && ltb i 16
    then Operation.push_receiver_variable i
    else Operation.push_long_receiver_variable i
meaning (store_receiver_variable i long) = Operation.store_instance_variable i
meaning (push_literal i) = Operation.push_literal i
meaning (push_literal_variable i) = Operation.push_literal_variable i
meaning (store_literal_variable i) = Operation.store_literal_variable i
meaning (push_temporal i) = Operation.push_temporary i
meaning (store_temporal i) = Operation.store_temporary i
meaning (pop_store_temporal i) = Operation.set_temporary i
meaning (push_array n) = Operation.push_array n false
meaning (push_n_closure_temps n) = Operation.push_nils n
meaning (call_primitive i) = Operation.primitive i
meaning (push_temporal_in_vector i v) = Operation.push_in_vector i v
meaning (store_temporal_in_vector i v) = Operation.store_in_vector i v
meaning (pop_store_temporal_in_vector i v) = Operation.pop_store_in_vector i v
meaning (send_message s n) = Operation.send s (pos n) false
meaning _ = Operation.extension

-- The bytes stand within a code, and decode to the operation and to their end.
abbrev pub DecodesTo : Operation → List ℕ → Type 0
DecodesTo o bytes =
    (before after : List ℕ)
    → decode (before ++ (bytes ++ after)) (length before) 0 (pos 0)
      ≡ ok record {
        operation = o;
        next = pos (length before + length bytes);
        extend_a = 0;
        extend_b = pos 0;
      }

abbrev pub Encodes : Operation → Outcome (List ℕ) → Type 0
Encodes o r = (bytes : List ℕ) × (r ≡ ok bytes) × DecodesTo o bytes
