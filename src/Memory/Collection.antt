-- ===== src/Memory/Collection.antt =====
-- A garbage collection of vm/MemoryManager.cpp: what it starts from, and when it runs.
pub mod Survivors
pub mod Requests
pub mod Allocation
use lodtalk.Prelude.{
  ℕ, ◌+◌, ◌-◌, List, [], ◌∷◌, ◌++◌, map, Option, none, some, Bool, true, false, not, ◌||◌, ltb,
  ◌==◌, if◌then◌else◌,
}
use lodtalk.Prelude.Int.{ℤ, pos, negsuc, ◌+ℤ◌}
use lodtalk.Outcome.{Outcome, ok, abort, null_pointer, assertion, ◌>>=◌}
use lodtalk.Memory.VmHeap.{VmHeap, allocate, has_capacity_threshold_been_reached}
use lodtalk.Memory.Collector.Objects.{Memory, Color, words_from}
use lodtalk.Memory.Collector.Marking.{Colors, mark}
use lodtalk.Memory.Compaction.Blocks.{AllocatedObject, compute_size, header_offset}
use lodtalk.Memory.Compaction.Passes.{Compacted, compact}

abbrev pub concat : List (List ℕ) → List ℕ
concat [] = []
concat (xs ∷ xss) = xs ++ concat xss

-- The words of a root array.
pub root_words : Memory → List (ℕ × ℕ) → List ℕ
root_words m [] = []
root_words m ((address, size) ∷ roots) = words_from m size address ++ root_words m roots

-- `onRootsDo`: the root arrays, the pages of the class table, the stack frames, whose words are
-- given, the words of the references in the list, and the values of the symbol dictionary.
unfoldable pub on_roots_do :
    Memory → List (ℕ × ℕ) → List (List ℕ) → List ℕ → List ℕ → List ℕ → List ℕ
on_roots_do m root_pointers page_table stack_words reference_words symbols =
    root_words m root_pointers
    ++ (concat page_table ++ (stack_words ++ (reference_words ++ symbols)))

-- The objects of the heap with the colours of their headers.
unfoldable pub with_colors : Colors → ℕ → List AllocatedObject → List AllocatedObject
with_colors colors live [] = []
with_colors colors live (b ∷ bs) =
    record b { gc_color = colors (live + header_offset b) }
    ∷ with_colors colors (live + compute_size b) bs

-- `mark(); compact();`. The words of the roots are the same for both.
unfoldable pub mark_and_compact :
    ℕ
    → Memory
    → ℕ
    → Colors
    → VmHeap
    → List AllocatedObject
    → List ℕ
    → List AllocatedObject
    → Outcome Compacted
mark_and_compact nil_object m fuel colors heap objects roots natives = do
  marked ← mark m fuel roots colors
  compact nil_object marked heap (with_colors marked heap.address_space objects) roots natives

-- `disableCount` and `garbageCollectionQueued`, with the heap and the words in memory.
pub record Control : Type 0 where
  pub disable_count : ℤ
  pub garbage_collection_queued : Bool

abbrev pub positive : ℤ → Bool
positive (pos n) = ltb 0 n
positive (negsuc n) = false

unfoldable pub enable : Control → Control
enable s = record s { disable_count = s.disable_count +ℤ negsuc 0 }

unfoldable pub disable : Control → Control
disable s = record s { disable_count = s.disable_count +ℤ pos 1 }

unfoldable pub queue_garbage_collection : Control → Control
queue_garbage_collection s = record s { garbage_collection_queued = true }

-- Whether a call collects.
unfoldable pub internal_perform_collection : Control → Bool
internal_perform_collection s = not (positive s.disable_count)

-- The new state, the result, and whether the call has collected.
unfoldable pub collection_safe_point : Control → Control × Bool × Bool
unfolding internal_perform_collection
collection_safe_point s =
    if not s.garbage_collection_queued || positive s.disable_count
    then (s, false, false)
    else (record s { garbage_collection_queued = false }, true, internal_perform_collection s)

-- The words of the memory that `allocateObjectMemory` writes.
pub record Allocator : Type 0 where
  pub requests : Control
  pub heap : VmHeap
  pub word_at : ℕ → ℕ

abbrev pub write : (ℕ → ℕ) → ℕ → ℕ → ℕ → ℕ
write f a v b = if a == b then v else f b

-- The result is the address of the header, which is cleared.
unfoldable pub allocate_object_memory :
    (ℕ → ℕ → ℕ → Bool) → Allocator → ℕ → Bool → Outcome (Allocator × ℕ)
unfolding queue_garbage_collection has_capacity_threshold_been_reached
allocate_object_memory commit s object_size big_object =
    if ltb object_size 8
    then abort assertion
    else (let requests' =
          if not (has_capacity_threshold_been_reached s.heap)
          then queue_garbage_collection s.requests
          else s.requests in
        let extra_header_size = if big_object then 16 else 8 in
        let (heap', answer) = allocate commit s.heap (object_size + extra_header_size) in
        elim answer [
          | none ↦ abort null_pointer
          | some result ↦ ok (
            record {
              requests = requests';
              heap = heap';
              word_at =
                  write (write s.word_at result (if big_object then 1 else 0))
                    (result + extra_header_size) 0;
            },
            result + extra_header_size,
          )
        ])
