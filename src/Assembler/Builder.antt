-- ===== src/Assembler/Builder.antt =====
-- The state of `Assembler` in vm/MethodBuilder.hpp: its literals, its stream and its labels.
pub mod Methods
pub mod Sends
pub mod Meaning
pub mod Literals
pub mod Runs
use lodtalk.Prelude.{
  ℕ, zero, suc, Bool, true, false, Option, none, some, List, [], ◌∷◌, ◌++◌, map, ◌==◌,
  if◌then◌else◌, length,
}
use lodtalk.Assembler.Instruction.{Instruction, label, is_return_instruction, Node, new_node}

-- `next_label` counts the labels that `makeLabel` has made; it stands for `new`.
pub record Assembler : Type 0 where
  pub literals : List ℕ
  pub instruction_stream : List Instruction
  pub using_long_instance_variable_accessors : Bool
  pub next_label : ℕ

abbrev pub new_assembler : Assembler
new_assembler = record {
  literals = [];
  instruction_stream = [];
  using_long_instance_variable_accessors = false;
  next_label = 0;
}

abbrev pub use_long_instance_variable_accessors : Assembler → Assembler
use_long_instance_variable_accessors a = record a { using_long_instance_variable_accessors = true }

abbrev pub add_instruction : Instruction → Assembler → Assembler
add_instruction i a = record a { instruction_stream = a.instruction_stream ++ i ∷ [] }

-- The loop of `addLiteral` from index `i` on; `none` where it falls through.
unfoldable pub find_literal : List ℕ → ℕ → ℕ → Option ℕ
find_literal [] new_literal i = none
find_literal (x ∷ xs) new_literal i =
    let rest = find_literal xs new_literal (suc i) in if x == new_literal then some i else rest

-- The index of the literal, and the assembler afterwards.
abbrev pub add_literal_always : ℕ → Assembler → ℕ × Assembler
add_literal_always new_literal a =
    (length a.literals, record a { literals = a.literals ++ new_literal ∷ [] })

abbrev found_or_new : Option ℕ → ℕ → Assembler → ℕ × Assembler
found_or_new (some i) new_literal a = (i, a)
found_or_new none new_literal a = add_literal_always new_literal a

unfoldable pub add_literal : ℕ → Assembler → ℕ × Assembler
unfolding find_literal
add_literal new_literal a = found_or_new (find_literal a.literals new_literal 0) new_literal a

abbrev pub make_label : Assembler → ℕ × Assembler
make_label a = (a.next_label, record a { next_label = suc a.next_label })

abbrev pub put_label : ℕ → Assembler → Assembler
put_label l a = add_instruction (label l) a

abbrev pub make_label_here : Assembler → ℕ × Assembler
make_label_here a = let (l, b) = make_label a in (l, put_label l b)

-- `getLastInstruction`: none for `nullptr`.
abbrev last : List Instruction → Option Instruction
last [] = none
last (i ∷ []) = some i
last (i ∷ j ∷ is) = last (j ∷ is)

abbrev pub get_last_instruction : Assembler → Option Instruction
get_last_instruction a = last a.instruction_stream

abbrev is_return : Option Instruction → Bool
unfolding is_return_instruction
is_return none = false
is_return (some i) = is_return_instruction i

unfoldable pub is_last_return : Assembler → Bool
unfolding is_return
is_last_return a = is_return (get_last_instruction a)
