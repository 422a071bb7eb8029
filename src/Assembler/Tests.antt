-- ===== src/Assembler/Tests.antt =====
-- The assembler on a small stream: a forward jump over a push, then a return.
use lodtalk.Prelude.{ℕ, ◌+◌, ◌*◌, ◌≡◌, refl, arith, true, false, inl, inr, List, [], ◌∷◌, map}
use lodtalk.Outcome.{ok}
use lodtalk.Bytecode
use lodtalk.Assembler.Instruction.{
  Instruction, label, single_bytecode, unconditional_jump, Node, new_node,
}
use lodtalk.Assembler.Layout.{compute_instructions_size}
use lodtalk.Assembler.Generate.{generate}
use lodtalk.Assembler.Emission.Success.{IsOk}
use lodtalk.Assembler.Emission.Returns.{generate-IsOk}
use lodtalk.Assembler.Builder.{Assembler, new_assembler, add_literal}
use lodtalk.Assembler.Builder.Sends.{send, push_literal}
use lodtalk.Assembler.Builder.Literals.{IsPrefix, Distinct, IsEntered, add_literal-IsEntered}
use lodtalk.Assembler.Builder.Runs.{Calls, Call, IsWellFormed, Calls-IsWellFormed}
use lodtalk.Assembler.Builder.Meaning.{Adds, Pushes, push_literal-Adds}
use lodtalk.Assembler.Relaxation.Pass.{instructions}
use lodtalk.Assembler.Relaxation.Loop.{IsSettled}
use lodtalk.Assembler.Relaxation.Placed.{IsAssemblable}
use lodtalk.Assembler.Relaxation.Start.{compute_instructions_size-IsSettled}
use lodtalk.Assembler.Emission.Method.{IsGenerated, generate-IsGenerated}

abbrev jump_over : List Node
jump_over = map new_node (
    Instruction.push_literal 0
    ∷ unconditional_jump 1
    ∷ Instruction.push_literal 40
    ∷ label 1
    ∷ single_bytecode Bytecode.return_top true
    ∷ [])

jump_over-IsAssemblable : IsAssemblable (instructions jump_over)
jump_over-IsAssemblable =
    ((tt, tt), ((tt, inr (inr (inr (inl refl)))), ((tt, tt), ((tt, tt), ((tt, tt), tt)))))

compute_instructions_size-IsSettled_example :
    (ns : List Node) × (total : ℕ) × (compute_instructions_size jump_over ≡ ok (ns, total))
    × IsSettled (instructions jump_over) ns total
compute_instructions_size-IsSettled_example =
    compute_instructions_size-IsSettled jump_over jump_over-IsAssemblable

generate-IsGenerated_example :
    IsGenerated (7 ∷ []) 2 1 false 4 (generate jump_over (7 ∷ []) 2 1 false 4)
generate-IsGenerated_example =
    generate-IsGenerated (7 ∷ []) 2 1 false 4 jump_over jump_over-IsAssemblable

abbrev placed : Instruction → ℕ → ℕ → Node
placed i p s = record { instruction = i; position = p; size = s; last_position = p; last_size = s }

-- The jump takes one byte.
abbrev jump_over_laid : List Node
jump_over_laid =
    placed (Instruction.push_literal 0) 0 1
    ∷ placed (unconditional_jump 1) 1 1
    ∷ placed (Instruction.push_literal 40) 2 2
    ∷ placed (label 1) 4 0
    ∷ placed (single_bytecode Bytecode.return_top true) 4 1
    ∷ []

jump_over_run : compute_instructions_size jump_over ≡ ok (jump_over_laid, 5)
unfolding compute_instructions_size
jump_over_run = refl

generate-IsOk_example : IsOk (generate jump_over (7 ∷ []) 2 1 false 4)
generate-IsOk_example =
    generate-IsOk jump_over jump_over_laid 5 (7 ∷ []) 2 1 false 4 jump_over-IsAssemblable
      (omega arith, (tt, (omega arith, (tt, (tt, tt))))) jump_over_run (omega arith)
      (omega arith, omega arith, omega arith)

-- A table with two literals.
abbrev two_literals : Assembler
two_literals = record new_assembler { literals = 16 ∷ 24 ∷ [] }

two_literals-Distinct : Distinct two_literals.literals
two_literals-Distinct = ((λ e. omega (arith, e), tt), (tt, tt))

add_literal-IsEntered_example : IsEntered 24 two_literals (add_literal 24 two_literals)
add_literal-IsEntered_example = add_literal-IsEntered 24 two_literals two_literals-Distinct

push_literal-Adds_example :
    Adds (Pushes 8 40 48 32) two_literals (push_literal 8 40 48 32 two_literals)
push_literal-Adds_example = push_literal-Adds 8 40 48 32 two_literals

-- Special selectors at the addresses from 800 on.
abbrev special_at : ℕ → ℕ
special_at i = 800 + i * 8

-- Two calls: a literal is pushed, and a message is sent.
abbrev pushed_literal : Assembler
pushed_literal = push_literal 8 40 48 32 new_assembler

abbrev sent_message : Assembler
sent_message = send special_at 56 1 pushed_literal

pushed-Calls : Calls 8 40 48 special_at new_assembler sent_message
pushed-Calls = Calls.call (Call.pushes_literal 32) (Calls.call (Call.sends 56 1) Calls.done)

Calls-IsWellFormed_example :
    IsWellFormed sent_message × IsPrefix new_assembler.literals sent_message.literals
Calls-IsWellFormed_example =
    Calls-IsWellFormed 8 40 48 special_at new_assembler sent_message pushed-Calls tt
