-- ===== src/Interpreter/Tests.antt =====
-- The interpreter's decoder on concrete bytes.
use lodtalk.Prelude.{ℕ, ◌≤◌, ◌≡◌, ◌↔◌, refl, arith, true, List, [], ◌++◌, length}
use lodtalk.Prelude.Int.{pos}
use lodtalk.Outcome.{ok}
use lodtalk.Assembler.Instruction.{
  Node, push_literal, unconditional_jump, conditional_jump, new_node,
}
use lodtalk.Assembler.Sizes.{Labels, label_last_position}
use lodtalk.Assembler.Encode.{encode_plain, encode_closure, encode_as}
use lodtalk.Interpreter.Operation.{go_to, branch}
use lodtalk.Interpreter.Decode.{decode}
use lodtalk.Interpreter.Meaning.{meaning, Encodes}
use lodtalk.Interpreter.RoundTrip.{decode-encode_plain}
use lodtalk.Interpreter.Jumps.{
  Jumps, FitsByte, distance, unconditional_jump-Jumps, conditional_jump-Jumps,
}
use lodtalk.Interpreter.Closures.{closure_at, decode-encode_closure}

decode-encode_plain_example : Encodes (meaning (push_literal 40)) (encode_plain (push_literal 40))
decode-encode_plain_example = decode-encode_plain (push_literal 40) (omega arith)

-- A jump of two bytes at the start, to a label 100 bytes behind it.
abbrev jump_ahead : Node
jump_ahead = record (new_node (unconditional_jump 1)) { size = 2 }

abbrev ahead : ℕ → ℕ
ahead d = 102

abbrev unplaced : Labels
unplaced = label_last_position []

unconditional_jump-Jumps_example :
    (bytes : List ℕ) × (encode_as ahead unplaced jump_ahead (unconditional_jump 1) ≡ ok bytes)
    × ((before after : List ℕ)
        → Jumps go_to (distance ahead unplaced jump_ahead 1) bytes before after
          ↔ FitsByte (distance ahead unplaced jump_ahead 1))
unconditional_jump-Jumps_example =
    unconditional_jump-Jumps ahead unplaced jump_ahead 1 refl (omega arith)

conditional_jump-Jumps_example :
    (bytes : List ℕ) × (encode_as ahead unplaced jump_ahead (conditional_jump 1 true) ≡ ok bytes)
    × ((before after : List ℕ)
        → Jumps (branch true) (distance ahead unplaced jump_ahead 1) bytes before after
          ↔ FitsByte (distance ahead unplaced jump_ahead 1))
conditional_jump-Jumps_example =
    conditional_jump-Jumps ahead unplaced jump_ahead 1 true refl (omega arith)

decode-encode_closure_example :
    (bytes : List ℕ) × (encode_closure 2 1 0 (pos 12) ≡ ok bytes)
    × ((before after : List ℕ)
        → (k : ℕ) × (decode (before ++ (bytes ++ after)) (length before) 0 (pos 0)
            ≡ ok (closure_at k 1 12 (length before)))
          × ((k ≡ 2) ↔ (2 ≤ 1)))
decode-encode_closure_example =
    decode-encode_closure 2 1 12 (omega arith) (omega arith) (omega arith)
