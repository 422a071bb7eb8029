-- ===== src/Interpreter/Special.antt =====
-- The special messages of vm/StackInterpreter.cpp.
use lodtalk.Prelude.{ℕ, Option, none, some, ltb, ◌==◌, ◌||◌, if◌then◌else◌}

-- With how many arguments the handler of each special message sends it, or pops them. The first 16
-- messages are binary, and their handlers stand before the others; index 24 is not assigned.
unfoldable pub special_argument_count : ℕ → Option ℕ
special_argument_count index =
    if index == 17
    then some 2
    else if index == 24 || ltb 31 index
    then none
    else if ltb index 17
    then some 1
    else if index == 20 || (index == 22 || (index == 26 || (index == 27 || index == 29)))
    then some 1
    else some 0
