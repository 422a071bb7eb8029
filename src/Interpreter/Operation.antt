-- ===== src/Interpreter/Operation.antt =====
-- What a bytecode handler of vm/StackInterpreter.cpp goes on to do once it has its operands.
use lodtalk.Prelude.{ℕ, Bool}
use lodtalk.Prelude.Int.{ℤ}

-- The last call or effect of a handler, with the arguments that it decoded. `plain` is a handler
-- without operands, with its opcode.
pub data Operation : Type 0 where
  plain : ℕ → Operation
  push_receiver_variable push_long_receiver_variable push_literal_variable : ℕ → Operation
  push_literal push_temporary push_nils : ℕ → Operation
  set_instance_variable set_temporary : ℕ → Operation
  store_instance_variable store_literal_variable store_temporary : ℕ → Operation
  push_integer push_character : ℤ → Operation
  -- arraySize, popElements
  push_array : ℕ → Bool → Operation
  -- literalIndex, argumentCount, superLookup
  send : ℕ → ℤ → Bool → Operation
  extension : Operation
  go_to : ℤ → Operation
  -- The condition that takes the branch, and where the branch goes.
  branch : Bool → ℤ → Operation
  -- temporalIndex, vectorIndex
  push_in_vector store_in_vector pop_store_in_vector : ℕ → ℕ → Operation
  -- numCopied, numArgs, startPc
  push_closure : ℕ → ℕ → ℕ → Operation
  inline_primitive primitive : ℕ → Operation

-- An operation, the position of the opcode that follows it unless it branches, and the extensions.
pub record Decoded : Type 0 where
  pub operation : Operation
  pub next : ℤ
  pub extend_a : ℕ
  pub extend_b : ℤ
