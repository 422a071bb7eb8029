-- ===== src/Memory/Compaction/Isomorphism.antt =====
-- The objects after `compact` of vm/MemoryManager.cpp are the live ones before it.
use lodtalk.Prelude.{
  ℕ, ◌+◌, ◌-◌, ◌%◌, ◌≤◌, ◌<◌, ◌≡◌, refl, sym, ap, ◌∙◌, arith, List, [], ◌∷◌, map, Option, none,
  some, true, false, ◌==◌, if◌then◌else◌, Bool-cases, inl, inr,
}
use mathlib.Core.Path.{fun_ext}
use lodtalk.Outcome.{Outcome, ok}
use lodtalk.ObjectModel.Oop.{word, is_pointer}
use lodtalk.Memory.VmHeap.{VmHeap, contains_pointer, set_size}
use lodtalk.Memory.Collector.Objects.{Color}
use lodtalk.Memory.Collector.Marking.{is_white}
use lodtalk.Memory.Compaction.Blocks.{AllocatedObject, header_offset}
use lodtalk.Memory.Compaction.Passes.{
  Move, object_at, second_pass, third_pass, update_pointer, update_each, update_natives, Compacted,
  compact, whiten,
}
use lodtalk.Memory.Compaction.Small.{IsSmall, IsSmall-compute_size, IsSmall-header_offset}
use lodtalk.Memory.Compaction.Forwarding.{
  AllSmall, bytes, last_free, dead_count, forwarded, first_pass-forwarded, address_after,
  forwarded_word-address,
}
use lodtalk.Memory.Compaction.Sliding.{
  Slid, slid, done, freed, moved, new_words, Updatable, passes-Slid,
}
use lodtalk.Memory.Compaction.Moves.{IsSmall-slid}

-- The object whose header is at an address, among the objects that were moved.
abbrev pub object_moved_to : List Move → ℕ → Option AllocatedObject
object_moved_to [] pointer = none
object_moved_to (m ∷ ms) pointer =
    if pointer == m.destination + header_offset m.moved
    then some m.moved
    else object_moved_to ms pointer

-- The object `b` is at `q` bytes, has the words that `f` gives, and nothing else of it has changed
-- but its forwarding pointer and its colour.
pub record Arrived (f : ℕ → Outcome ℕ) (b : AllocatedObject) (ms : List Move) (q : ℕ) : Type 0 where
  pub words : List ℕ
  pub updated : new_words f b ≡ ok words
  pub there : object_moved_to ms (q + 8) ≡ some (slid q b words)

some_eq : (b c : AllocatedObject) → some b ≡ some c → b ≡ c
some_eq b c e = cc

not_dead :
    (c b : AllocatedObject)
    → is_white c.gc_color ≡ true
    → is_white b.gc_color ≡ false
    → some c ≡ some b
    → ⊥
not_dead c b dead alive e =
    false_not_true
      (sym alive ∙ ap (λ (o : AllocatedObject). is_white o.gc_color) (sym (some_eq c b e)) ∙ dead)
  where
    false_not_true : false ≡ true → ⊥
    false_not_true e = cc

object_at-head :
    (live : ℕ) (c : AllocatedObject) (bs : List AllocatedObject) (pointer : ℕ)
    → IsSmall c
    → object_at live (c ∷ bs) pointer
      ≡ (if pointer == live + 8 then some c else object_at (live + bytes c) bs pointer)
unfolding object_at
object_at-head live c bs pointer small =
    rw (IsSmall-header_offset c small, IsSmall-compute_size c small) refl

module _ (f : ℕ → Outcome ℕ) (nil_object : ℕ) where
  pub Slid-Arrived :
      {live free : ℕ} {bs : List AllocatedObject} {ms : List Move}
      → Slid f live free bs ms
      → AllSmall bs
      → free % 8 ≡ 0
      → (pointer : ℕ) (b : AllocatedObject) → object_at live bs pointer ≡ some b
      → is_white b.gc_color ≡ false
      → (q : ℕ) × (address_after nil_object live free bs pointer ≡ ok (q + 8))
        × (free ≤ q)
        × Arrived f b ms q
  unfolding object_at
  Slid-Arrived done small aligned pointer b found alive = absurd (cc found)
  Slid-Arrived {live} {free} (freed {bs = bs} c dead rest) small aligned pointer b found alive =
      let found' = sym (object_at-head live c bs pointer small.0) ∙ found in
      elim (Bool-cases (pointer == live + 8)) [
        | inl here ↦ absurd (not_dead c b dead alive (rw here at found'))
        | inr there ↦
            let (q, address, le, arrived) =
              Slid-Arrived rest small.1 aligned pointer b (rw there at found') alive in
            (q, rw (there, dead) address, le, arrived)
      ]
  Slid-Arrived {live} {free} (moved {bs = bs} {moves = ms} c ws live_c words rest) small aligned
        pointer b found alive =
      let found' = sym (object_at-head live c bs pointer small.0) ∙ found in
      let offset =
        IsSmall-header_offset (slid free c ws) (IsSmall-slid free c ws small.0 aligned) in
      elim (Bool-cases (pointer == live + 8)) [
        | inl here ↦
            let same : c ≡ b = some_eq c b (rw here at found') in
            let first : (free + 8 == free + 8) ≡ true = ground arith in
            (
              free,
              rw (here, live_c) refl,
              omega arith,
              record {
                words = ws;
                updated = rw (← same) words;
                there = rw (offset, first) (ap (λ o. some (slid free o ws)) same);
              },
            )
        | inr there ↦
            let (q, address, le, arrived) =
              Slid-Arrived rest small.1 (omega arith) pointer b (rw there at found') alive in
            let past : (q + 8 == free + 8) ≡ false = ground arith in
            (
              q,
              rw (there, live_c) address,
              omega arith,
              record {
                words = arrived.words;
                updated = arrived.updated;
                there = rw (offset, past) arrived.there;
              },
            )
      ]

-- What a word becomes, by where the objects go. `native_color` is the colour of the objects that
-- are not in the heap.
module _ (nil_object : ℕ) (native_color : ℕ → Color) (heap : VmHeap)
    (objects : List AllocatedObject) where
  unfoldable pub relocate : ℕ → Outcome ℕ
  relocate pointer =
      if is_pointer pointer
      then (if contains_pointer heap pointer
          then address_after nil_object heap.address_space heap.address_space objects pointer
          else (if is_white (native_color pointer) then ok nil_object else ok pointer))
      else ok pointer

  update_pointer-relocate :
      AllSmall objects
      → heap.address_space % 8 ≡ 0
      → (pointer : ℕ)
      → update_pointer nil_object native_color heap (forwarded heap.address_space objects) pointer
        ≡ relocate pointer
  unfolding update_pointer relocate
  update_pointer-relocate small aligned pointer =
      rw
        (forwarded_word-address nil_object heap.address_space heap.address_space objects pointer
          small aligned)
        refl

  pub relocate-eq :
      (pointer : ℕ)
      → is_pointer pointer ≡ true
      → contains_pointer heap pointer ≡ true
      → relocate pointer
        ≡ address_after nil_object heap.address_space heap.address_space objects pointer
  unfolding relocate
  relocate-eq pointer ptr inside = rw (ptr, inside) refl

  -- `compact` by its passes.
  pub compact-passes :
      (roots roots' : List ℕ) (natives natives' us : List AllocatedObject)
      → AllSmall objects
      → heap.address_space % 8 ≡ 0
      → last_free heap.address_space objects + 8 < word
      → 0 < dead_count objects
      → second_pass relocate (forwarded heap.address_space objects) ≡ ok us
      → update_each relocate roots ≡ ok roots'
      → update_natives relocate natives ≡ ok natives'
      → compact nil_object native_color heap objects roots natives
        ≡ ok (record {
          heap = set_size heap (last_free heap.address_space objects - heap.address_space);
          objects = third_pass heap.address_space us;
          roots = roots';
          natives = map whiten natives';
        })
  unfolding compact
  compact-passes roots roots' natives natives' us small aligned room some_dead second root native =
      let some : (dead_count objects == 0) ≡ false = ground arith in
      let same : update_pointer nil_object native_color heap (forwarded heap.address_space objects)
          ≡ relocate =
        fun_ext (update_pointer-relocate small aligned) in
      rw
        (
          first_pass-forwarded heap.address_space objects small aligned room,
          some,
          same,
          second,
          root,
          native,
        )
        refl

  -- compact, on a heap of small objects of which some are white. Let `b` be an object that is not
  -- white, and `pointer` the address of its header. Then the object stands after compact at the
  -- address that its forwarding pointer gives, which is the address that relocate gives for every
  -- pointer to it; its slots and literals are relocated, its format and size are kept, and its colour
  -- is white. The heap now has just the size of the objects that were not white. The roots are
  -- relocated too. All pointers in live objects, roots and native objects must be relocatable: those
  -- into the heap point to headers.
  pub compact-Arrived :
      (roots roots' : List ℕ) (natives natives' : List AllocatedObject)
      → AllSmall objects
      → heap.address_space % 8 ≡ 0
      → last_free heap.address_space objects + 8 < word
      → 0 < dead_count objects
      → Updatable relocate objects
      → update_each relocate roots ≡ ok roots'
      → update_natives relocate natives ≡ ok natives'
      → (pointer : ℕ) (b : AllocatedObject) → object_at heap.address_space objects pointer ≡ some b
      → is_white b.gc_color ≡ false
      → is_pointer pointer ≡ true
      → contains_pointer heap pointer ≡ true
      → (r : Compacted) × (compact nil_object native_color heap objects roots natives ≡ ok r)
        × (r.heap ≡ set_size heap (last_free heap.address_space objects - heap.address_space))
        × (r.roots ≡ roots')
        × (q : ℕ) × (relocate pointer ≡ ok (q + 8))
        × Arrived relocate b r.objects q
  compact-Arrived roots roots' natives natives' small aligned room some_dead up root native pointer
        b found alive ptr inside =
      let (us, second, slides) =
        passes-Slid relocate heap.address_space heap.address_space objects small up aligned room in
      let (q, address, _, arrived) =
        Slid-Arrived relocate nil_object slides small aligned pointer b found alive in
      (
        record {
          heap = set_size heap (last_free heap.address_space objects - heap.address_space);
          objects = third_pass heap.address_space us;
          roots = roots';
          natives = map whiten natives';
        },
        compact-passes roots roots' natives natives' us small aligned room some_dead second root
            native,
        refl,
        refl,
        q,
        relocate-eq pointer ptr inside ∙ address,
        arrived,
      )
