-- ===== src/Memory/Collector/Marking.antt =====
-- `markObject` and `mark` of vm/MemoryManager.cpp.
use lodtalk.Prelude.{ℕ, zero, suc, List, [], ◌∷◌, Bool, true, false, ◌&&◌, ◌==◌, if◌then◌else◌}
use lodtalk.Outcome.{Outcome, ok, out_of_fuel, ◌>>=◌}
use lodtalk.ObjectModel.Oop.{is_pointer}
use lodtalk.Memory.Collector.Objects.{Memory, Color, white, gray, black, children}

-- `header->gcColor` of every object.
abbrev pub Colors : Type 0
Colors = ℕ → Color

abbrev pub set_color : ℕ → Color → Colors → Colors
set_color object color colors o = if object == o then color else colors o

abbrev pub is_white : Color → Bool
is_white white = true
is_white gray = false
is_white black = false

-- The loops that mark the words of a list.
abbrev pub mark_each : (ℕ → Colors → Outcome Colors) → List ℕ → Colors → Outcome Colors
mark_each mark_one [] colors = ok colors
mark_each mark_one (o ∷ os) colors = do colors' ← mark_one o colors; mark_each mark_one os colors'

-- The fuel is the depth of the recursion.
unfoldable pub mark_object : Memory → ℕ → ℕ → Colors → Outcome Colors
mark_object m zero object colors = out_of_fuel
mark_object m (suc fuel) object colors = elim (is_pointer object && is_white (colors object)) [
  | false ↦ ok colors
  | true ↦ (do
    colors' ← mark_each (mark_object m fuel) (children m object) (set_color object gray colors)
    ok (set_color object black colors'))
]

-- `roots` are the words that `onRootsDo` goes through.
unfoldable pub mark : Memory → ℕ → List ℕ → Colors → Outcome Colors
mark m fuel roots colors = mark_each (mark_object m fuel) roots colors
