-- ===== src/Memory/Compaction/Big.antt =====
-- `AllocatedObject` of vm/MemoryManager.cpp, where the object is a big one.
use Prim.Native.Nat.{bit_and, bit_or}
use lodtalk.Prelude.{
  ℕ, ◌+◌, ◌-◌, ◌%◌, ◌≤◌, ◌≡◌, refl, ap, ◌∙◌, arith, [], ◌∷◌, some, true, false, ◌==◌, leb,
}
use lodtalk.Outcome.{Outcome, ok}
use lodtalk.Memory.VmHeap.{VmHeap, contains_pointer, set_size}
use lodtalk.Memory.Collector.Objects.{Color, white, of_compiled_method}
use lodtalk.Memory.Collector.Marking.{is_white}
use lodtalk.Memory.Compaction.Passes.{
  Move, Compacted, first_pass, object_at, forwarded_word, update_pointer, second_pass, update_each,
  update_natives, third_pass, compact,
}
use lodtalk.Memory.Compaction.Forwarding.{bytes}
use lodtalk.Prelude.Bits.{bit_and-mask}
use lodtalk.ObjectModel.Oop.{word, is_pointer}
use lodtalk.Memory.VmHeap.Rounding.{upper_bits}
use lodtalk.Memory.Compaction.Blocks.{
  AllocatedObject, alignment_mask, is_big_object, get_forwarding_destination,
  get_forwarding_pointer, set_forwarding_pointer, word_before_header, header_offset, compute_size,
  has_slots, update_pointers_of,
}
use lodtalk.Memory.Compaction.Small.{
  aligned-mask, aligned-or, IsSmall, IsSmall-compute_size, IsSmall-header_offset,
  IsSmall-set_forwarding_pointer,
}

-- A forwarding pointer with the lowest bit set is that of a big object.
odd-is_big_object :
    (b : AllocatedObject) → b.raw_forwarding_pointer % 2 ≡ 1 → is_big_object b ≡ true
unfolding is_big_object
odd-is_big_object b e =
    let low : bit_and b.raw_forwarding_pointer 1 ≡ 1 =
      bit_and-mask 1 b.raw_forwarding_pointer ∙ e in
    rw low refl

-- A big object with the forwarding pointer `free + 8`.
big_forwarding :
    (b : AllocatedObject) (free : ℕ)
    → b.raw_forwarding_pointer % 8 ≡ 1
    → free % 8 ≡ 0
    → 8 ≤ free
    → free + 16 ≤ word
    → (get_forwarding_destination (set_forwarding_pointer b (free + 8)) ≡ free - 8)
      × (word_before_header (set_forwarding_pointer b (free + 8)) ≡ b.extra_slot_count)
      × (header_offset (set_forwarding_pointer b (free + 8)) ≡ 16)
unfolding get_forwarding_destination word_before_header set_forwarding_pointer header_offset
big_forwarding b free marked aligned above below =
    let raw : bit_or (bit_and (free + 8) alignment_mask) (bit_and b.raw_forwarding_pointer 7)
        ≡ free + 9 =
      rw
        (
          aligned-mask (free + 8) (omega arith) (omega arith),
          bit_and-mask 3 b.raw_forwarding_pointer,
          marked,
        )
        (aligned-or (free + 8) 1 (omega arith) (omega arith) ∙ omega arith) in
    let b' = set_forwarding_pointer b (free + 8) in
    let big : is_big_object b' ≡ true =
      odd-is_big_object b' (ap (λ (x : ℕ). x % 2) raw ∙ omega arith) in
    let value : get_forwarding_pointer b' ≡ free + 8 =
      ap (λ (x : ℕ). bit_and x alignment_mask) raw
      ∙ upper_bits 61 3 refl (free + 9) (omega arith)
      ∙ omega arith in
    (rw (big, value) (omega arith), rw big refl, rw big refl)

-- A dead small object and a live big one behind it, at the start of a heap.
module _ (nil_object : ℕ) (native_color : ℕ → Color) (heap : VmHeap) (d b : AllocatedObject)
    (small : IsSmall d) (dead : is_white d.gc_color ≡ true) (alive : is_white b.gc_color ≡ false)
    (marked : b.raw_forwarding_pointer % 8 ≡ 1) (aligned : heap.address_space % 8 ≡ 0)
    (above : 8 ≤ heap.address_space) (below : heap.address_space + 16 ≤ word) where
  abbrev start : ℕ
  start = heap.address_space

  abbrev d' : AllocatedObject
  d' = record d { raw_forwarding_pointer = 0 }

  abbrev b' : AllocatedObject
  b' = set_forwarding_pointer b (start + 8)

  d'-IsSmall : IsSmall d'
  d'-IsSmall = record { unmarked = refl; counted = small.counted }

  abbrev pointer : ℕ
  pointer = start + bytes d + 16

  first : first_pass start (d ∷ b ∷ []) ≡ (d' ∷ b' ∷ [], start + compute_size b, 1)
  unfolding first_pass
  first = rw (dead, IsSmall-set_forwarding_pointer d small 0 refl (omega arith), alive) refl

  found : object_at start (d' ∷ b' ∷ []) pointer ≡ some b'
  unfolding object_at
  found =
      let (to, before, offset) = big_forwarding b start marked aligned above below in
      let past : (pointer == start + 8) ≡ false = ground arith in
      let here : (pointer == start + bytes d + 16) ≡ true = ground arith in
      rw
        (
          IsSmall-header_offset d' d'-IsSmall,
          past,
          IsSmall-compute_size d' d'-IsSmall,
          offset,
          here,
        )
        refl

  updated :
      is_pointer pointer ≡ true
      → contains_pointer heap pointer ≡ true
      → update_pointer nil_object native_color heap (d' ∷ b' ∷ []) pointer ≡ ok b.extra_slot_count
  unfolding update_pointer forwarded_word set_forwarding_pointer
  updated ptr inside =
      let (to, before, offset) = big_forwarding b start marked aligned above below in
      rw (ptr, inside, found, alive) (ap ok before)

  -- The compaction of the two, with one root, which is the big object.
  abbrev misplaced : Compacted
  misplaced = record {
    heap = set_size heap (start + compute_size b - start);
    objects =
        record {
          destination = start - 8;
          source = start + bytes d;
          moved = record b' { gc_color = white };
        }
        ∷ [];
    roots = b.extra_slot_count ∷ [];
    natives = [];
  }

  second :
      (f : ℕ → Outcome ℕ)
      → has_slots b.object_format ≡ false
      → leb of_compiled_method b.object_format ≡ false
      → second_pass f (d' ∷ b' ∷ []) ≡ ok (d' ∷ b' ∷ [])
  unfolding second_pass update_pointers_of set_forwarding_pointer
  second f plain no_method = rw (dead, alive, plain, no_method) refl

  third : third_pass start (d' ∷ b' ∷ []) ≡ misplaced.objects
  unfolding third_pass set_forwarding_pointer
  third =
      let (to, before, offset) = big_forwarding b start marked aligned above below in
      rw (dead, alive, IsSmall-compute_size d' d'-IsSmall)
        (ap
          (λ (q : ℕ).
            record {
              destination = q;
              source = start + bytes d;
              moved = record b' { gc_color = white };
            }
            ∷ [])
          to)

  compact-misplaced :
      has_slots b.object_format ≡ false
      → leb of_compiled_method b.object_format ≡ false
      → is_pointer pointer ≡ true
      → contains_pointer heap pointer ≡ true
      → compact nil_object native_color heap (d ∷ b ∷ []) (pointer ∷ []) [] ≡ ok misplaced
  unfolding compact update_each update_natives
  compact-misplaced plain no_method ptr inside =
      rw
        (
          first,
          second (update_pointer nil_object native_color heap (d' ∷ b' ∷ [])) plain no_method,
          updated ptr inside,
          third,
        )
        refl

  -- A heap that consists of a dead small object and of a live big one behind it, whose forwarding
  -- pointer has its lowest bit set, is compacted. The big object has no slots to update, and a root
  -- points to its header. Then the big object is moved to 8 bytes in front of the heap, where the
  -- start of the heap would be its place, and the root becomes the slot count of the object, which
  -- updatePointer reads as the new address. The heap starts at a multiple of 8.
  pub big_object_misplaced :
      has_slots b.object_format ≡ false
      → leb of_compiled_method b.object_format ≡ false
      → is_pointer pointer ≡ true
      → contains_pointer heap pointer ≡ true
      → (r : Compacted) × (compact nil_object native_color heap (d ∷ b ∷ []) (pointer ∷ []) []
          ≡ ok r)
        × (r.roots ≡ b.extra_slot_count ∷ [])
        × (m : Move) × (r.objects ≡ m ∷ [])
        × (m.source ≡ heap.address_space + bytes d)
        × (m.destination ≡ heap.address_space - 8)
  big_object_misplaced plain no_method ptr inside =
      (misplaced, compact-misplaced plain no_method ptr inside, refl, _, refl, refl, refl)
