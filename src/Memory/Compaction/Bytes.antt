-- ===== src/Memory/Compaction/Bytes.antt =====
-- The bytes of the objects that `compact` of vm/MemoryManager.cpp moves.
use mathlib.Core.Path.{subst}
use lodtalk.Prelude.{
  ℕ, ◌+◌, ◌%◌, ◌≤◌, ◌<◌, ◌≡◌, refl, sym, ap, ◌∙◌, arith, List, true, false, ◌==◌, inl, inr,
}
use lodtalk.Outcome.{Outcome, ok, ok-injective}
use lodtalk.ObjectModel.Oop.{word}
use lodtalk.Memory.VmHeap.{VmHeap}
use lodtalk.Memory.Collector.Objects.{Color}
use lodtalk.Memory.Compaction.Blocks.{AllocatedObject, compute_size}
use lodtalk.Memory.Compaction.Passes.{
  Move, Compacted, compact, third_pass, update_each, update_natives,
}
use lodtalk.Memory.Compaction.Forwarding.{AllSmall, last_free, dead_count, address_after}
use lodtalk.Memory.Compaction.Sliding.{Slid, done, freed, moved, Updatable, passes-Slid}
use lodtalk.Memory.Compaction.Moves.{Bytes, In, run_moves, Slid-keeps_bytes}
use lodtalk.Memory.Compaction.Isomorphism.{relocate, compact-passes}

-- The objects of the moves start at `live` or above, and each goes where its address leads.
Slid-above :
    {f : ℕ → Outcome ℕ} {live free : ℕ} {bs : List AllocatedObject} {ms : List Move}
    → Slid f live free bs ms
    → (m : Move) → In m ms
    → live ≤ m.source
Slid-above done m i = absurd i
Slid-above (freed b dead rest) m i = omega (arith, Slid-above rest m i)
Slid-above (moved b ws alive words rest) m (inl e) = omega (arith, ap (λ (x : Move). x.source) e)
Slid-above (moved b ws alive words rest) m (inr i) = omega (arith, Slid-above rest m i)

Slid-destination :
    {f : ℕ → Outcome ℕ} {live free : ℕ} {bs : List AllocatedObject} {ms : List Move}
    → Slid f live free bs ms
    → (nil_object : ℕ) (m : Move) → In m ms
    → address_after nil_object live free bs (m.source + 8) ≡ ok (m.destination + 8)
Slid-destination done nil_object m i = absurd i
Slid-destination {live} (freed b dead rest) nil_object m i =
    let past : (m.source + 8 == live + 8) ≡ false = ground (arith, Slid-above rest m i) in
    rw (past, dead) (Slid-destination rest nil_object m i)
Slid-destination {live} {free} (moved b ws alive words rest) nil_object m (inl e) =
    let at : m.source ≡ live = ap (λ (x : Move). x.source) e in
    let to : m.destination ≡ free = ap (λ (x : Move). x.destination) e in
    let here : (live + 8 == live + 8) ≡ true = ground arith in rw (at, to, here, alive) refl
Slid-destination {live} (moved b ws alive words rest) nil_object m (inr i) =
    let past : (m.source + 8 == live + 8) ≡ false = ground (arith, Slid-above rest m i) in
    rw (past, alive) (Slid-destination rest nil_object m i)

-- No call of memmove in a compaction overwrites an object that is still to be moved: let `m` be one of
-- the moves of compact, on a heap of small objects of which some are white, and whose pointers can be
-- relocated. Then it moves the object at its source to where the pointers to it are relocated. After
-- all of the moves, in their order, each byte of the object of `m` stands at its
-- destination as it stood at its source before the first of them, whatever the memory was.
pub compact-keeps_bytes :
    (nil_object : ℕ) (native_color : ℕ → Color) (heap : VmHeap) (objects : List AllocatedObject)
    (roots roots' : List ℕ) (natives natives' : List AllocatedObject) (r : Compacted) (m : Move)
    (memory : Bytes) (k : ℕ)
    → AllSmall objects
    → heap.address_space % 8 ≡ 0
    → last_free heap.address_space objects + 8 < word
    → 0 < dead_count objects
    → Updatable (relocate nil_object native_color heap objects) objects
    → update_each (relocate nil_object native_color heap objects) roots ≡ ok roots'
    → update_natives (relocate nil_object native_color heap objects) natives ≡ ok natives'
    → compact nil_object native_color heap objects roots natives ≡ ok r
    → In m r.objects
    → k < compute_size m.moved
    → (address_after nil_object heap.address_space heap.address_space objects (m.source + 8)
        ≡ ok (m.destination + 8))
      × (run_moves r.objects memory (m.destination + k) ≡ memory (m.source + k))
compact-keeps_bytes nil_object native_color heap objects roots roots' natives natives' r m memory k
      small aligned room some_dead up root native runs moves lt =
    let start = heap.address_space in
    let (us, second, slides) =
      passes-Slid (relocate nil_object native_color heap objects) start start objects small up
        aligned room in
    let passes =
      compact-passes nil_object native_color heap objects roots roots' natives natives' us small
        aligned room some_dead second root native in
    let same : third_pass start us ≡ r.objects =
      ap (λ (c : Compacted). c.objects) (ok-injective (sym passes ∙ runs)) in
    let moves' = subst (In m) (sym same) moves in
    (
      Slid-destination slides nil_object m moves',
      ap (λ (ms : List Move). run_moves ms memory (m.destination + k)) (sym same)
          ∙ Slid-keeps_bytes slides small aligned (omega arith) memory m k moves' lt,
    )
