-- ===== src/Assembler/Instruction.antt =====
-- The subclasses of `InstructionNode` in vm/MethodBuilder.cpp, and a node with its layout fields
-- (vm/MethodBuilder.hpp).
use lodtalk.Prelude.{ℕ, Bool, false}

-- One constructor for each subclass, with its fields. A `Label *` is the number of the label that
-- it points to. Indices and counts are `int`s that the code obtains from sizes, never negative.
pub data Instruction : Type 0 where
  label : ℕ → Instruction
  -- bytecode, isReturn
  single_bytecode : ℕ → Bool → Instruction
  -- index, longInstruction
  push_receiver_variable store_receiver_variable : ℕ → Bool → Instruction
  push_literal push_literal_variable store_literal_variable : ℕ → Instruction
  push_temporal store_temporal pop_store_temporal : ℕ → Instruction
  push_array push_n_closure_temps call_primitive : ℕ → Instruction
  -- index, vectorIndex
  push_temporal_in_vector store_temporal_in_vector : ℕ → ℕ → Instruction
  pop_store_temporal_in_vector : ℕ → ℕ → Instruction
  -- numCopied, numArgs, blockEnd, numExtensions
  push_closure : ℕ → ℕ → ℕ → ℕ → Instruction
  -- selectorIndex, argumentCount
  send_message super_send_message : ℕ → ℕ → Instruction
  unconditional_jump : ℕ → Instruction
  -- destination, condition
  conditional_jump : ℕ → Bool → Instruction

pub record Node : Type 0 where
  pub instruction : Instruction
  pub position : ℕ
  pub size : ℕ
  pub last_position : ℕ
  pub last_size : ℕ

-- The constructor sets `position`; the other fields are set by the first layout pass before any
-- code reads them, except for a label that is in no stream (`label_last_position`).
abbrev pub new_node : Instruction → Node
new_node i = record { instruction = i; position = 0; size = 0; last_position = 0; last_size = 0 }

-- `isReturnInstruction`
unfoldable pub is_return_instruction : Instruction → Bool
is_return_instruction (single_bytecode b r) = r
is_return_instruction _ = false
