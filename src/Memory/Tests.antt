-- ===== src/Memory/Tests.antt =====
-- The memory manager at concrete inputs.
mod Heap
use lodtalk.Prelude.{
  ℕ, ◌+◌, ◌-◌, ◌^◌, ◌≤◌, ◌<◌, ◌≡◌, refl, arith, List, [], ◌∷◌, ◌++◌, Option, none, some, Bool, true,
  false, ◌==◌, if◌then◌else◌, ◌⊎◌, inl, inr, ◌||◌,
}
use lodtalk.Prelude.Int.{ℤ, pos, negsuc, ◌+ℤ◌}
use lodtalk.Outcome.{Outcome, ok, abort, assertion, null_pointer}
use lodtalk.ObjectModel.Oop.{word}
use lodtalk.Memory.ClassTable.{ClassTable, get_class_from_index, register_class}
use lodtalk.Memory.ClassTable.Registry.{Operation, register, add_special, set_class, apply_all}
use lodtalk.Memory.ClassTable.Refinement.{Refines, empty, new_class_table, run_all}
use lodtalk.Memory.ClassTable.Runs.{
  Same, new_class_table-Refines, class_table-Refines, register_class-find,
}
use lodtalk.Memory.VmHeap.{VmHeap, allocate}
use lodtalk.Memory.VmHeap.Allocation.{
  IsValid, Allocated, Consecutive, allocate-IsValid, allocate_run, allocate_run-Consecutive,
}
use lodtalk.Memory.References.{
  References, no_references, register_oop_reference, unregister_oop_reference, visit_references,
}
use lodtalk.Memory.References.Represents.{Represents}
use lodtalk.Memory.References.Live.{Live, start, Live-visit}
use lodtalk.Memory.Collector.Roots.{
  unregister_gc_root, unregistered, without, unregister_gc_root-unregistered,
  unregister_gc_root-without,
}
use lodtalk.Memory.Collection.{
  Control, Allocator, enable, queue_garbage_collection, collection_safe_point,
  allocate_object_memory,
}
use lodtalk.Memory.Collection.Requests.{
  Event, enables, disables, queues, reaches_safe_point, handle, count_after, handle_all,
  deferred_collection, asks,
}
use lodtalk.Memory.Collection.Allocation.{IsAllocated, allocate_object_memory-cases}
use lodtalk.Memory.Compaction.Blocks.{AllocatedObject, has_slots}
use lodtalk.Memory.Compaction.Big.{big_object_misplaced}
use lodtalk.Memory.Compaction.Passes.{Move, Compacted, compact}
use lodtalk.Memory.Collector.Objects.{black, white}
use lodtalk.ObjectModel.Oop.{is_pointer}
use lodtalk.Memory.VmHeap.{contains_pointer}

-- Two classes, one at a chosen index in the third page; and then another in its place.
abbrev class_operations : List Operation
class_operations = register 80 ∷ add_special 88 1030 ∷ register 96 ∷ set_class 104 0 ∷ []

class_table-Refines_example :
    Same 64
      (run_all 64 class_operations (new_class_table 64))
      (apply_all class_operations (empty 64))
class_table-Refines_example = class_table-Refines 64 class_operations

register_class-find_example :
    (t' : ClassTable) × (register_class 64 (new_class_table 64) 80
      ≡ ok (t', (new_class_table 64).size))
    × (get_class_from_index 64 t' (t'.identity_hash 80) ≡ ok 80)
    × ((i : ℕ)
        → get_class_from_index 64 t' i ≡ (
            if i == (new_class_table 64).size
            then ok 80
            else get_class_from_index 64 (new_class_table 64) i))
unfolding new_class_table
register_class-find_example =
    register_class-find 64 (new_class_table 64) (empty 64) 80 (new_class_table-Refines 64)
      (omega arith)

-- A heap of one page of 4096 bytes; the system gives what is asked for.
abbrev one_page : VmHeap
one_page = record {
  address_space = 8192;
  max_capacity = 65536;
  capacity = 4096;
  size = 4000;
  page_size = 4096;
}

abbrev always : ℕ → ℕ → ℕ → Bool
always a offset size = true

one_page-IsValid : IsValid 12 one_page
one_page-IsValid = record { paged = refl; within = omega arith; rounded = refl }

allocate-IsValid_example :
    IsValid 12 (allocate always one_page 200).0
    × Allocated one_page 200 (allocate always one_page 200)
    × (((allocate always one_page 200).0.capacity ≡ 4096)
        ⊎ ((allocate always one_page 200).0.capacity < 4000 + 200 + 2 ^ 12))
allocate-IsValid_example =
    allocate-IsValid always 52 12 refl one_page 200 one_page-IsValid (omega arith)

allocate_run-Consecutive_example :
    IsValid 12 (allocate_run always 52 12 refl one_page (200 ∷ 48 ∷ [])).0
    × Consecutive
        (8192 + 4000)
        ((allocate_run always 52 12 refl one_page (200 ∷ 48 ∷ [])).0.address_space
          + (allocate_run always 52 12 refl one_page (200 ∷ 48 ∷ [])).0.size)
        (allocate_run always 52 12 refl one_page (200 ∷ 48 ∷ [])).1
allocate_run-Consecutive_example =
    allocate_run-Consecutive always 52 12 refl one_page (200 ∷ 48 ∷ []) one_page-IsValid
      (omega arith)

-- Three references, the middle one unregistered.
abbrev two_references : References
two_references =
    unregister_oop_reference
      (register_oop_reference (register_oop_reference (register_oop_reference no_references 8) 16)
        24)
      16

two_references-Live : Live two_references (24 ∷ 8 ∷ [])
two_references-Live = Live.unregister (24 ∷ []) 16 (8 ∷ []) (
    Live.register 24 (Live.register 16 (Live.register 8 start tt) (λ e. absurd (omega arith), tt))
      (λ e. absurd (omega arith), (λ e. absurd (omega arith), tt)))

Live-visit_example :
    Represents two_references (24 ∷ 8 ∷ [])
    × (visit_references 3 two_references two_references.first_reference ≡ some (24 ∷ 8 ∷ []))
Live-visit_example = Live-visit two_references (24 ∷ 8 ∷ []) 3 two_references-Live (omega arith)

-- A root that is registered twice in a row stays once.
abbrev doubled_roots : List (ℕ × ℕ)
doubled_roots = (8, 1) ∷ (8, 2) ∷ (16, 1) ∷ []

unregister_gc_root-unregistered_example : unregister_gc_root doubled_roots 8 ≡ (8, 2) ∷ (16, 1) ∷ []
unregister_gc_root-unregistered_example = unregister_gc_root-unregistered doubled_roots 8

unregister_gc_root-without_example :
    unregister_gc_root ((8, 1) ∷ (16, 1) ∷ (8, 2) ∷ []) 8 ≡ (16, 1) ∷ []
unregister_gc_root-without_example =
    unregister_gc_root-without ((8, 1) ∷ (16, 1) ∷ (8, 2) ∷ []) 8 (refl, (refl, tt))

-- Collections are disabled once, and one is asked for.
abbrev disabled_once : Control
disabled_once = record { disable_count = pos 1; garbage_collection_queued = false }

deferred_collection_example :
    ((handle_all (queues ∷ reaches_safe_point ∷ []) disabled_once).1 ≡ 0)
    × ((handle_all
          (enables ∷ reaches_safe_point ∷ reaches_safe_point ∷ [])
          (handle_all (queues ∷ reaches_safe_point ∷ []) disabled_once).0).1
        ≡ 1)
unfolding handle_all handle enable queue_garbage_collection collection_safe_point count_after ◌+ℤ◌
deferred_collection_example =
    deferred_collection (queues ∷ reaches_safe_point ∷ []) disabled_once (refl, (refl, refl)) refl

abbrev allocator : Allocator
allocator = record { requests = disabled_once; heap = one_page; word_at = λ _. 7 }

allocate_object_memory-cases_example :
    ((24 < 8) × (allocate_object_memory always allocator 24 false ≡ abort assertion))
    ⊎ ((8 ≤ 24)
        × ((allocate always one_page (24 + 8)).1 ≡ none)
        × (allocate_object_memory always allocator 24 false ≡ abort null_pointer))
    ⊎ ((8 ≤ 24)
        × (s' : Allocator) × (p : ℕ) × (allocate_object_memory always allocator 24 false
            ≡ ok (s', p))
        × (s'.heap ≡ (allocate always one_page (24 + 8)).0)
        × IsAllocated allocator false s' p)
allocate_object_memory-cases_example = allocate_object_memory-cases always allocator 24 false

-- A big object of 300 slots.
abbrev big_object : AllocatedObject
big_object = record {
  raw_forwarding_pointer = 1;
  extra_slot_count = 300;
  slot_count = 255;
  gc_color = black;
  object_format = 16;
  words = [];
}

-- A dead object without slots in front of it.
abbrev dead_object : AllocatedObject
dead_object = record {
  raw_forwarding_pointer = 0;
  extra_slot_count = 0;
  slot_count = 0;
  gc_color = white;
  object_format = 0;
  words = [];
}

abbrev small_heap : VmHeap
small_heap = record {
  address_space = 4096;
  max_capacity = 65536;
  capacity = 4096;
  size = 2440;
  page_size = 4096;
}

big_object_misplaced_example :
    (r : Compacted) × (compact 64
        (λ _. white)
        small_heap
        (dead_object ∷ big_object ∷ [])
        (4128 ∷ [])
        []
      ≡ ok r)
    × (r.roots ≡ 300 ∷ [])
    × (m : Move) × (r.objects ≡ m ∷ [])
    × (m.source ≡ 4112)
    × (m.destination ≡ 4088)
unfolding has_slots is_pointer contains_pointer
big_object_misplaced_example =
    big_object_misplaced 64 (λ _. white) small_heap dead_object big_object
      (record { unmarked = refl; counted = omega arith }) refl refl refl refl (omega arith)
      (omega arith) refl refl refl refl
