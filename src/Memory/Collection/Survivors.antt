-- ===== src/Memory/Collection/Survivors.antt =====
-- What survives a collection of vm/MemoryManager.cpp: the objects that are reachable from the roots.
use lodtalk.Prelude.{
  ℕ, ◌+◌, ◌%◌, ◌<◌, ◌≡◌, refl, sym, ap, ◌∙◌, List, [], ◌∷◌, some, true, length, ◌==◌, Bool-cases,
  ==_iff, inl, inr,
}
use mathlib.Core.Path.{ap₂}
use lodtalk.Outcome.{ok, ok-injective}
use lodtalk.ObjectModel.Oop.{word, is_pointer}
use lodtalk.Memory.VmHeap.{VmHeap, contains_pointer}
use lodtalk.Memory.Collector.Objects.{Memory, Color, white, black}
use lodtalk.Memory.Collector.Marking.{Colors, mark}
use lodtalk.Memory.Collector.Reachable.{Reachable}
use lodtalk.Memory.Collector.Correct.{IsSpace, Pointers, mark-Reachable}
use lodtalk.Memory.Compaction.Blocks.{AllocatedObject, compute_size, header_offset}
use lodtalk.Memory.Compaction.Passes.{Compacted, object_at, update_each, update_natives}
use lodtalk.Memory.Compaction.Forwarding.{AllSmall, last_free, dead_count}
use lodtalk.Memory.Compaction.Sliding.{Updatable}
use lodtalk.Memory.Compaction.Isomorphism.{Arrived, relocate, compact-Arrived}
use lodtalk.Memory.Collection.{with_colors, mark_and_compact}

-- The colour does not tell where an object is.
header_offset-color :
    (b : AllocatedObject) (x : Color) → header_offset (record b { gc_color = x }) ≡ header_offset b
unfolding header_offset
header_offset-color b x = refl

compute_size-color :
    (b : AllocatedObject) (x : Color) → compute_size (record b { gc_color = x }) ≡ compute_size b
unfolding compute_size
compute_size-color b x = refl

object_at-with_colors :
    (colors : Colors) (live : ℕ) (bs : List AllocatedObject) (pointer : ℕ) {b : AllocatedObject}
    → object_at live bs pointer ≡ some b
    → object_at live (with_colors colors live bs) pointer
      ≡ some (record b { gc_color = colors pointer })
unfolding object_at with_colors
object_at-with_colors colors live [] pointer found = absurd (cc found)
object_at-with_colors colors live (c ∷ bs) pointer {b} found =
    let x = colors (live + header_offset c) in
    elim (Bool-cases (pointer == live + header_offset c)) [
      | inl here ↦
          let same : c ≡ b = some_eq c b (rw (here, object_at) at found) in
          let at : pointer ≡ live + header_offset c =
            (==_iff pointer (live + header_offset c)).0 here in
          rw (header_offset-color c x, here)
            (ap₂ (λ (o : AllocatedObject) (a : ℕ). some (record o { gc_color = colors a })) same
              (sym at))
      | inr there ↦
          rw (header_offset-color c x, compute_size-color c x, there)
            (object_at-with_colors colors (live + compute_size c) bs pointer
              (rw (there, object_at) at found))
    ]
  where
    some_eq : (b c : AllocatedObject) → some b ≡ some c → b ≡ c
    some_eq b c e = cc

-- A reachable object is black once marking has ended.
reached-black :
    (m : Memory) (space roots : List ℕ) (fuel : ℕ) (colors marked : Colors) (pointer : ℕ)
    → IsSpace m space
    → Pointers space roots
    → length space < fuel
    → ((a : ℕ) → colors a ≡ white)
    → mark m fuel roots colors ≡ ok marked
    → Reachable m roots pointer
    → marked pointer ≡ black
reached-black m space roots fuel colors marked pointer closed inside enough fresh run reached =
    let (c, run', split) = mark-Reachable m space roots fuel colors closed inside enough fresh in
    let same : c ≡ marked = ok-injective (sym run' ∙ run) in
    elim (split pointer) [
      | inl (_, is_black) ↦ ap (λ (f : Colors). f pointer) (sym same) ∙ is_black
      | inr (unreached, _) ↦ absurd (unreached reached)
    ]

-- A collection, where marking ends with the colours `marked`. Let `b` be an object of the heap whose
-- header is at `pointer`, and let it be reachable from the roots. Then mark and compact succeed, and
-- `b` is afterwards at the address that every pointer to it in the roots and in other live objects is
-- replaced by, with its format and size, its slots and literals relocated and its colour white. The
-- heap holds small objects, of which some are not reachable; before, all objects are white, all
-- pointers among the roots and the children of objects are known (they are in `space`), and the
-- pointers of marked objects, roots and native objects can be relocated.
pub mark_and_compact-Arrived :
    (nil_object : ℕ) (m : Memory) (space : List ℕ) (fuel : ℕ) (colors marked : Colors)
    (heap : VmHeap) (objects : List AllocatedObject) (roots roots' : List ℕ)
    (natives natives' : List AllocatedObject) (pointer : ℕ) (b : AllocatedObject)
    → IsSpace m space
    → Pointers space roots
    → length space < fuel
    → ((a : ℕ) → colors a ≡ white)
    → mark m fuel roots colors ≡ ok marked
    → AllSmall (with_colors marked heap.address_space objects)
    → heap.address_space % 8 ≡ 0
    → last_free heap.address_space (with_colors marked heap.address_space objects) + 8 < word
    → 0 < dead_count (with_colors marked heap.address_space objects)
    → Updatable
        (relocate nil_object marked heap (with_colors marked heap.address_space objects))
        (with_colors marked heap.address_space objects)
    → update_each
        (relocate nil_object marked heap (with_colors marked heap.address_space objects))
        roots
      ≡ ok roots'
    → update_natives
        (relocate nil_object marked heap (with_colors marked heap.address_space objects))
        natives
      ≡ ok natives'
    → object_at heap.address_space objects pointer ≡ some b
    → is_pointer pointer ≡ true
    → contains_pointer heap pointer ≡ true
    → Reachable m roots pointer
    → (r : Compacted) × (mark_and_compact nil_object m fuel colors heap objects roots natives
        ≡ ok r)
      × (r.roots ≡ roots')
      × (q : ℕ) × (relocate nil_object marked heap
            (with_colors marked heap.address_space objects)
            pointer
          ≡ ok (q + 8))
      × Arrived
          (relocate nil_object marked heap (with_colors marked heap.address_space objects))
          (record b { gc_color = black })
          r.objects
          q
unfolding mark_and_compact
mark_and_compact-Arrived nil_object m space fuel colors marked heap objects roots roots' natives
      natives' pointer b closed inside enough fresh run small aligned room some_dead up root native
      found ptr within reached =
    let is_black =
      reached-black m space roots fuel colors marked pointer closed inside enough fresh run
        reached in
    let found' : object_at heap.address_space (with_colors marked heap.address_space objects)
          pointer
        ≡ some (record b { gc_color = black }) =
      object_at-with_colors marked heap.address_space objects pointer found
      ∙ ap (λ (x : Color). some (record b { gc_color = x })) is_black in
    let (r, done, _, rooted, q, at, arrived) =
      compact-Arrived nil_object marked heap (with_colors marked heap.address_space objects) roots
        roots' natives natives' small aligned room some_dead up root native pointer
        (record b { gc_color = black }) found' refl ptr within in
    (r, rw run done, rooted, q, at, arrived)
