-- ===== src/Assembler/Builder/Sends.antt =====
-- `Assembler::pushLiteral` and `Assembler::send` of vm/MethodBuilder.cpp, for the oops of nil, true and
-- false and the special selectors of the virtual machine's context.
use lodtalk.Prelude.{ℕ, zero, suc, ◌+◌, false, Option, none, some, ◌==◌, if◌then◌else◌}
use lodtalk.Bytecode
use lodtalk.ObjectModel.Oop.{encode_small_integer}
use lodtalk.Prelude.Int.{pos}
use lodtalk.Assembler.Instruction.{single_bytecode, send_message}
use lodtalk.Assembler.Builder.{Assembler, add_instruction, add_literal}
use lodtalk.Assembler.Builder.Methods.{
  push_nil, push_true, push_false, push_one, push_zero, push_literal_index,
}

-- `SpecialMessageOptimizedCount`, the number of `BasicNew`.
abbrev pub special_message_optimized_count : ℕ
special_message_optimized_count = 32

-- The loop of `send` over the special selectors from `i` on, with the rounds that are left.
unfoldable pub find_special : (ℕ → ℕ) → ℕ → ℕ → ℕ → Option ℕ
find_special special selector i zero = none
find_special special selector i (suc rounds) =
    let rest = find_special special selector (suc i) rounds in
    if selector == special i then some i else rest

-- Where the loop found a selector, and where it did not.
unfoldable pub send_found : Option ℕ → ℕ → ℕ → Assembler → Assembler
unfolding add_literal
send_found (some i) selector argument_count a =
    add_instruction (single_bytecode (Bytecode.special_message_add + i) false) a
send_found none selector argument_count a =
    let (i, b) = add_literal selector a in add_instruction (send_message i argument_count) b

unfoldable pub send : (ℕ → ℕ) → ℕ → ℕ → Assembler → Assembler
unfolding find_special send_found
send special selector argument_count a =
    send_found (find_special special selector 0 special_message_optimized_count) selector
      argument_count a

unfoldable pub push_literal : (nil_oop true_oop false_oop : ℕ) → ℕ → Assembler → Assembler
unfolding add_literal encode_small_integer
push_literal nil_oop true_oop false_oop literal a =
    if literal == nil_oop
    then push_nil a
    else if literal == true_oop
    then push_true a
    else if literal == false_oop
    then push_false a
    else if literal == encode_small_integer (pos 1)
    then push_one a
    else if literal == encode_small_integer (pos 0)
    then push_zero a
    else (let (i, b) = add_literal literal a in push_literal_index i b)
