-- ===== src/Assembler/Layout.antt =====
-- `Assembler::computeInstructionsSize` of vm/MethodBuilder.cpp: the passes that give each
-- instruction its position and size.
use lodtalk.Prelude.{ℕ, zero, suc, ◌+◌, List, [], ◌∷◌, map, ltb, if◌then◌else◌}
use lodtalk.Outcome.{Outcome, ok, out_of_fuel, ◌>>=◌}
use lodtalk.Assembler.Instruction.{Node}
use lodtalk.Assembler.Sizes.{compute_max_size, compute_better_size, Labels, label_last_position}

-- `commitSize`
abbrev pub commit_size : Node → Node
commit_size n = record n { last_position = n.position; last_size = n.size }

-- `computeMaxSizeForPosition`: the new node; its size is the result.
unfoldable pub compute_max_size_for_position : Node → ℕ → Outcome Node
unfolding compute_max_size
compute_max_size_for_position n new_position = do
  s ← compute_max_size n.instruction
  ok (record n { position = new_position; size = s })

-- `computeBetterSizeForPosition`
unfoldable pub compute_better_size_for_position : Labels → Node → ℕ → Outcome Node
unfolding compute_better_size
compute_better_size_for_position labels n new_position = do
  s ← compute_better_size labels n
  ok (record n { position = new_position; size = s })

-- The first loop, from the size so far: the nodes, each committed, and the total.
unfoldable pub max_pass : List Node → ℕ → Outcome (List Node × ℕ)
unfolding compute_max_size_for_position
max_pass [] max_size = ok ([], max_size)
max_pass (n ∷ ns) max_size = do
  m ← compute_max_size_for_position n max_size
  (ms, total) ← max_pass ns (max_size + m.size)
  ok (commit_size m ∷ ms, total)

-- The first loop in the body of the `do`. Only committed positions of labels are read.
unfoldable pub better_pass : Labels → List Node → ℕ → Outcome (List Node × ℕ)
unfolding compute_better_size_for_position
better_pass labels [] current_size = ok ([], current_size)
better_pass labels (n ∷ ns) current_size = do
  m ← compute_better_size_for_position labels n current_size
  (ms, total) ← better_pass labels ns (current_size + m.size)
  ok (m ∷ ms, total)

-- The `do … while(currentSize < oldSize)`, with fuel.
unfoldable pub better_loop : ℕ → List Node → ℕ → Outcome (List Node × ℕ)
better_loop zero ns current_size = out_of_fuel
better_loop (suc fuel) ns old_size = do
  (ms, current_size) ← better_pass (label_last_position ns) ns 0
  let again = better_loop fuel (map commit_size ms) current_size
  if ltb current_size old_size then again else ok (map commit_size ms, current_size)

-- Each further round lowers the total, so the first total gives enough fuel.
unfoldable pub compute_instructions_size : List Node → Outcome (List Node × ℕ)
unfolding max_pass better_loop better_pass label_last_position
compute_instructions_size stream = do
  (ns, max_size) ← max_pass stream 0
  better_loop (suc max_size) ns max_size
