-- ===== src/Memory/Compaction/Passes.antt =====
-- The three passes of `compact` of vm/MemoryManager.cpp over the objects of the heap, in order.
use lodtalk.Prelude.{ℕ, suc, ◌+◌, ◌-◌, ◌==◌, List, [], ◌∷◌, map, Option, none, some, if◌then◌else◌}
use lodtalk.Outcome.{Outcome, ok, abort, memory_corruption, ◌>>=◌}
use lodtalk.ObjectModel.Oop.{is_pointer}
use lodtalk.Memory.VmHeap.{VmHeap, contains_pointer, set_size}
use lodtalk.Memory.Collector.Objects.{Color, white, pointer_size}
use lodtalk.Memory.Collector.Marking.{is_white}
use lodtalk.Memory.Compaction.Blocks.{
  AllocatedObject, compute_size, get_forwarding_destination, set_forwarding_pointer, header_offset,
  word_before_header, update_pointers_of,
}

-- The objects with new forwarding pointers, the free address at the end, and how many were freed.
unfoldable pub first_pass : ℕ → List AllocatedObject → List AllocatedObject × ℕ × ℕ
first_pass free [] = ([], free, 0)
first_pass free (b ∷ bs) =
    let condemned = is_white b.gc_color in
    let (rest, last, count) = first_pass (if condemned then free else free + compute_size b) bs in
    if condemned
    then (set_forwarding_pointer b 0 ∷ rest, last, suc count)
    else (set_forwarding_pointer b (free + pointer_size) ∷ rest, last, count)

-- The object whose header is at an address; the first object starts at `live`.
unfoldable pub object_at : ℕ → List AllocatedObject → ℕ → Option AllocatedObject
object_at live [] pointer = none
object_at live (b ∷ bs) pointer =
    if pointer == live + header_offset b
    then some b
    else object_at (live + compute_size b) bs pointer

-- The forwarding pointer of a live object, or nil.
unfoldable pub forwarded_word : ℕ → Option AllocatedObject → Outcome ℕ
forwarded_word nil_object none = abort memory_corruption
forwarded_word nil_object (some b) =
    if is_white b.gc_color then ok nil_object else ok (word_before_header b)

-- `nil_object` is the address of `NilObject`; `native_color` is the colour of the objects outside of
-- the heap. A pointer into the heap at which no object starts reads other memory.
module _ (nil_object : ℕ) (native_color : ℕ → Color) where
  unfoldable pub update_pointer : VmHeap → List AllocatedObject → ℕ → Outcome ℕ
  update_pointer heap objects pointer =
      if is_pointer pointer
      then (if contains_pointer heap pointer
          then forwarded_word nil_object (object_at heap.address_space objects pointer)
          else (if is_white (native_color pointer) then ok nil_object else ok pointer))
      else ok pointer

-- The second pass, with `updatePointer` given.
unfoldable pub second_pass : (ℕ → Outcome ℕ) → List AllocatedObject → Outcome (List AllocatedObject)
second_pass f [] = ok []
second_pass f (b ∷ bs) = do
  b' ← if is_white b.gc_color then ok b else update_pointers_of f b
  bs' ← second_pass f bs
  ok (b' ∷ bs')

unfoldable pub update_each : (ℕ → Outcome ℕ) → List ℕ → Outcome (List ℕ)
update_each f [] = ok []
update_each f (w ∷ ws) = do w' ← f w; ws' ← update_each f ws; ok (w' ∷ ws')

unfoldable pub update_natives :
    (ℕ → Outcome ℕ) → List AllocatedObject → Outcome (List AllocatedObject)
update_natives f [] = ok []
update_natives f (b ∷ bs) = do b' ← update_pointers_of f b; bs' ← update_natives f bs; ok (b' ∷ bs')

-- A call of `memmove`: where the object goes, where it was, and the object.
pub record Move : Type 0 where
  pub destination : ℕ
  pub source : ℕ
  pub moved : AllocatedObject

-- The third pass: the calls of `memmove`, with the colours cleared.
unfoldable pub third_pass : ℕ → List AllocatedObject → List Move
third_pass live [] = []
third_pass live (b ∷ bs) =
    let rest = third_pass (live + compute_size b) bs in
    if is_white b.gc_color
    then rest
    else record {
      destination = get_forwarding_destination b;
      source = live;
      moved = record b { gc_color = white };
    }
      ∷ rest

-- The objects where they are, with the colours cleared.
pub abort_compaction : ℕ → List AllocatedObject → List Move
abort_compaction live [] = []
abort_compaction live (b ∷ bs) =
    record { destination = live; source = live; moved = record b { gc_color = white } }
    ∷ abort_compaction (live + compute_size b) bs

-- The heap, the objects in it and where they are, the words of the roots, and the words of the
-- native objects.
pub record Compacted : Type 0 where
  pub heap : VmHeap
  pub objects : List Move
  pub roots : List ℕ
  pub natives : List AllocatedObject

abbrev pub whiten : AllocatedObject → AllocatedObject
whiten b = record b { gc_color = white }

unfoldable pub compact :
    ℕ
    → (ℕ → Color)
    → VmHeap
    → List AllocatedObject
    → List ℕ
    → List AllocatedObject
    → Outcome Compacted
compact nil_object native_color heap objects roots natives =
    let (forwarded, free, count) = first_pass heap.address_space objects in
    let update = update_pointer nil_object native_color heap forwarded in
    if count == 0
    then ok (record {
      heap = heap;
      objects = abort_compaction heap.address_space forwarded;
      roots = roots;
      natives = map whiten natives;
    })
    else (do
      updated ← second_pass update forwarded
      roots' ← update_each update roots
      natives' ← update_natives update natives
      ok (record {
        heap = set_size heap (free - heap.address_space);
        objects = third_pass heap.address_space updated;
        roots = roots';
        natives = map whiten natives';
      }))
