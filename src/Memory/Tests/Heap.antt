-- ===== src/Memory/Tests/Heap.antt =====
-- A collection of a small heap: two objects that point to each other, and one between them that
-- nothing points to.
use mathlib.Core.Path.{subst}
use lodtalk.Prelude.{
  ℕ, ◌+◌, ◌-◌, ◌≤◌, ◌≡◌, refl, sym, arith, List, [], ◌∷◌, true, ◌==◌, if◌then◌else◌, ◌⊎◌, inl, inr,
}
use lodtalk.Outcome.{ok}
use lodtalk.ObjectModel.Oop.{is_pointer}
use lodtalk.Memory.VmHeap.{VmHeap, contains_pointer, set_size}
use lodtalk.Memory.Collector.Objects.{Memory, white, gray, black, children}
use lodtalk.Memory.Collector.Marking.{Colors, set_color, mark, mark_object}
use lodtalk.Memory.Collector.Reachable.{Reachable, root, child}
use lodtalk.Memory.Collector.Correct.{IsSpace, Pointers, mark-Reachable}
use lodtalk.Memory.Compaction.Blocks.{
  AllocatedObject, compute_size, header_offset, update_first, has_slots, update_pointers_of,
  set_forwarding_pointer, get_forwarding_destination, updated_slot_count, word_before_header,
}
use lodtalk.Memory.Compaction.Passes.{
  Compacted, Move, compact, first_pass, second_pass, third_pass, update_pointer, forwarded_word,
  object_at, update_each, update_natives,
}
use lodtalk.Memory.Compaction.Small.{IsSmall}
use lodtalk.Memory.Compaction.Forwarding.{AllSmall, last_free, address_after}
use lodtalk.Memory.Compaction.Sliding.{slid, Updatable}
use lodtalk.Memory.Compaction.Moves.{run_moves}
use lodtalk.Memory.Compaction.Bytes.{compact-keeps_bytes}
use lodtalk.Memory.Compaction.Isomorphism.{Arrived, relocate, compact-Arrived}
use lodtalk.Memory.Collection.{with_colors, mark_and_compact}
use lodtalk.Memory.Collection.Survivors.{mark_and_compact-Arrived}

-- The headers are at 4104, 4136 and 4152.
abbrev memory : Memory
memory = record {
  object_format = λ _. 1;
  slot_count = λ o. if o == 4104 then 2 else (if o == 4152 then 1 else 0);
  word_at = λ a. if a == 4112 then 4152 else (if a == 4160 then 4104 else 65);
}

abbrev all_white : Colors
all_white o = white

-- The order in which the collector colours the two.
abbrev marked : Colors
marked =
    set_color 4104 black
      (set_color 4152 black (set_color 4152 gray (set_color 4104 gray all_white)))

abbrev space : List ℕ
space = 4104 ∷ 4152 ∷ []

not_a_pointer : is_pointer 65 ≡ true → ⊥
unfolding is_pointer
not_a_pointer e = cc

space-IsSpace : IsSpace memory space
unfolding children
space-IsSpace p (inl e) =
    subst (λ q. Pointers space (children memory q)) (sym e)
      (λ _. inr (inl refl), (λ h. absurd (not_a_pointer h), tt))
space-IsSpace p (inr (inl e)) =
    subst (λ q. Pointers space (children memory q)) (sym e) (λ _. inl refl, tt)
space-IsSpace p (inr (inr i)) = absurd i

mark-Reachable_example :
    (c' : Colors) × (mark memory 3 (4104 ∷ []) all_white ≡ ok c')
    × ((a : ℕ)
        → (Reachable memory (4104 ∷ []) a × (c' a ≡ black))
          ⊎ ((¬ Reachable memory (4104 ∷ []) a) × (c' a ≡ white)))
mark-Reachable_example =
    mark-Reachable memory space (4104 ∷ []) 3 all_white space-IsSpace (λ _. inl refl, tt)
      (omega arith) (λ a. refl)

memory-marked : mark memory 3 (4104 ∷ []) all_white ≡ ok marked
unfolding mark mark_object children is_pointer
memory-marked = refl

abbrev heap : VmHeap
heap = record {
  address_space = 4096;
  max_capacity = 65536;
  capacity = 4096;
  size = 72;
  page_size = 4096;
}

abbrev object : ℕ → List ℕ → AllocatedObject
object n ws = record {
  raw_forwarding_pointer = 0;
  extra_slot_count = 0;
  slot_count = n;
  gc_color = white;
  object_format = 1;
  words = ws;
}

abbrev objects : List AllocatedObject
objects = object 2 (4152 ∷ 65 ∷ []) ∷ object 0 [] ∷ object 1 (4104 ∷ []) ∷ []

-- The same objects with their colours.
abbrev colored : List AllocatedObject
colored =
    record (object 2 (4152 ∷ 65 ∷ [])) { gc_color = black }
    ∷ object 0 []
    ∷ record (object 1 (4104 ∷ [])) { gc_color = black }
    ∷ []

object-IsSmall : (b : AllocatedObject) → b.raw_forwarding_pointer ≡ 0 → b.slot_count ≤ 2 → IsSmall b
object-IsSmall b e h = record { unmarked = omega arith; counted = omega arith }

colored-AllSmall : AllSmall colored
colored-AllSmall = (
  object-IsSmall (record (object 2 (4152 ∷ 65 ∷ [])) { gc_color = black }) refl (omega arith),
  (
    object-IsSmall (object 0 []) refl (omega arith),
    (object-IsSmall (record (object 1 (4104 ∷ [])) { gc_color = black }) refl (omega arith), tt),
  ),
)

-- The first object stays, and the third one moves into the place of the second.
colored-Updatable : Updatable (relocate 64 marked heap colored) colored
unfolding relocate update_first has_slots is_pointer contains_pointer
colored-Updatable =
    (λ e. (4136 ∷ 65 ∷ [], refl), (λ e. absurd (cc e), (λ e. (4104 ∷ [], refl), tt)))

compact-Arrived_example :
    (r : Compacted) × (compact 64 marked heap colored (4104 ∷ []) [] ≡ ok r)
    × (r.heap ≡ set_size heap (last_free 4096 colored - 4096))
    × (r.roots ≡ 4104 ∷ [])
    × (q : ℕ) × (relocate 64 marked heap colored 4152 ≡ ok (q + 8))
    × Arrived
        (relocate 64 marked heap colored)
        (record (object 1 (4104 ∷ [])) { gc_color = black })
        r.objects
        q
unfolding relocate update_each update_natives object_at is_pointer contains_pointer compute_size
    header_offset
compact-Arrived_example =
    compact-Arrived 64 marked heap colored (4104 ∷ []) (4104 ∷ []) [] [] colored-AllSmall refl
      (omega arith) (omega arith) colored-Updatable refl refl 4152
      (record (object 1 (4104 ∷ [])) { gc_color = black }) refl refl refl refl

memory-Reachable : Reachable memory (4104 ∷ []) 4152
unfolding children is_pointer
memory-Reachable = child (root (inl refl) refl) (inl refl) refl

mark_and_compact-Arrived_example :
    (r : Compacted) × (mark_and_compact 64 memory 3 all_white heap objects (4104 ∷ []) [] ≡ ok r)
    × (r.roots ≡ 4104 ∷ [])
    × (q : ℕ) × (relocate 64 marked heap colored 4152 ≡ ok (q + 8))
    × Arrived
        (relocate 64 marked heap colored)
        (record (object 1 (4104 ∷ [])) { gc_color = black })
        r.objects
        q
unfolding relocate update_each update_natives object_at is_pointer contains_pointer with_colors
    header_offset compute_size
mark_and_compact-Arrived_example =
    mark_and_compact-Arrived 64 memory space 3 all_white marked heap objects (4104 ∷ []) (4104 ∷ [])
      [] [] 4152 (object 1 (4104 ∷ [])) space-IsSpace (λ _. inl refl, tt) (omega arith) (λ a. refl)
      memory-marked colored-AllSmall refl (omega arith) (omega arith) colored-Updatable refl refl
      refl refl refl memory-Reachable

abbrev last_move : Move
last_move = record {
  destination = 4128;
  source = 4144;
  moved = slid 4128 (record (object 1 (4104 ∷ [])) { gc_color = black }) (4104 ∷ []);
}

abbrev moves : List Move
moves =
    record {
      destination = 4096;
      source = 4096;
      moved = slid 4096 (record (object 2 (4152 ∷ 65 ∷ [])) { gc_color = black }) (4136 ∷ 65 ∷ []);
    }
    ∷ last_move
    ∷ []

abbrev compacted : Compacted
compacted = record { heap = set_size heap 56; objects = moves; roots = 4104 ∷ []; natives = [] }

compact-keeps_bytes_example :
    (address_after 64 4096 4096 colored 4152 ≡ ok 4136)
    × (run_moves moves (λ a. a) (4128 + 20) ≡ 4144 + 20)
unfolding compute_size update_each update_natives relocate compact first_pass second_pass third_pass
    is_pointer contains_pointer update_pointer object_at header_offset update_pointers_of has_slots
    update_first set_forwarding_pointer get_forwarding_destination updated_slot_count forwarded_word
    word_before_header
compact-keeps_bytes_example =
    compact-keeps_bytes 64 marked heap colored (4104 ∷ []) (4104 ∷ []) [] [] compacted last_move
      (λ a. a) 20 colored-AllSmall refl (omega arith) (omega arith) colored-Updatable refl refl refl
      (inr (inl refl)) (omega arith)
