-- ===== src/Memory/Compaction/Forwarding.antt =====
-- The first pass of `compact` of vm/MemoryManager.cpp on a heap without big objects.
use lodtalk.Prelude.{
  ℕ, suc, ◌+◌, ◌*◌, ◌%◌, ◌≤◌, ◌<◌, ◌≡◌, refl, arith, List, [], ◌∷◌, All, ◌==◌, if◌then◌else◌,
  Bool-cases, inl, inr,
}
use lodtalk.Outcome.{Outcome, ok, abort, memory_corruption}
use lodtalk.ObjectModel.Oop.{word}
use lodtalk.Memory.Collector.Marking.{is_white}
use lodtalk.Memory.Compaction.Blocks.{AllocatedObject, set_forwarding_pointer}
use lodtalk.Memory.Compaction.Passes.{first_pass, object_at, forwarded_word}
use lodtalk.Memory.Compaction.Small.{
  IsSmall, IsSmall-compute_size, IsSmall-header_offset, IsSmall-set_forwarding_pointer,
  IsSmall-word_before_header,
}

abbrev pub AllSmall : List AllocatedObject → Type 0
AllSmall = All IsSmall

-- The bytes of a small object, and the free address after it and after all objects.
abbrev pub bytes : AllocatedObject → ℕ
bytes b = 16 + b.slot_count * 8

abbrev pub next_free : ℕ → AllocatedObject → ℕ
next_free free b = if is_white b.gc_color then free else free + bytes b

abbrev pub last_free : ℕ → List AllocatedObject → ℕ
last_free free [] = free
last_free free (b ∷ bs) = last_free (next_free free b) bs

abbrev pub total_bytes : List AllocatedObject → ℕ
total_bytes [] = 0
total_bytes (b ∷ bs) = bytes b + total_bytes bs

abbrev pub dead_count : List AllocatedObject → ℕ
dead_count [] = 0
dead_count (b ∷ bs) = if is_white b.gc_color then suc (dead_count bs) else dead_count bs

-- The objects with the forwarding pointers that the first pass gives them.
abbrev pub with_forwarding : ℕ → AllocatedObject → AllocatedObject
with_forwarding free b = record b {
  raw_forwarding_pointer = if is_white b.gc_color then 0 else free + 8;
}

abbrev pub forwarded : ℕ → List AllocatedObject → List AllocatedObject
forwarded free [] = []
forwarded free (b ∷ bs) = with_forwarding free b ∷ forwarded (next_free free b) bs

pub next_free-cases :
    (free : ℕ) (b : AllocatedObject)
    → (free ≤ next_free free b) × (next_free free b ≤ free + bytes b)
next_free-cases free b = ground arith

pub next_free-aligned : (free : ℕ) (b : AllocatedObject) → free % 8 ≡ 0 → next_free free b % 8 ≡ 0
next_free-aligned free b h = ground arith

pub free-le-last_free : (free : ℕ) (bs : List AllocatedObject) → free ≤ last_free free bs
free-le-last_free free [] = omega arith
free-le-last_free free (b ∷ bs) =
    omega (arith, next_free-cases free b, free-le-last_free (next_free free b) bs)

last_free-le : (free : ℕ) (bs : List AllocatedObject) → last_free free bs ≤ free + total_bytes bs
last_free-le free [] = omega arith
last_free-le free (b ∷ bs) =
    omega (arith, next_free-cases free b, last_free-le (next_free free b) bs)

-- One object of the first pass.
forward_one :
    (free : ℕ) (b : AllocatedObject)
    → IsSmall b
    → free % 8 ≡ 0
    → free + 8 < word
    → (if is_white b.gc_color
        then set_forwarding_pointer b 0
        else set_forwarding_pointer b (free + 8))
      ≡ with_forwarding free b
forward_one free b small aligned room = elim (Bool-cases (is_white b.gc_color)) [
  | inl dead ↦ rw dead (IsSmall-set_forwarding_pointer b small 0 refl (omega arith))
  | inr live ↦ rw live (IsSmall-set_forwarding_pointer b small (free + 8) (omega arith) room)
]

first_step :
    (free : ℕ) (b : AllocatedObject) (bs : List AllocatedObject)
    → IsSmall b
    → (if is_white b.gc_color
        then set_forwarding_pointer b 0
        else set_forwarding_pointer b (free + 8))
      ≡ with_forwarding free b
    → first_pass (next_free free b) bs
      ≡ (forwarded (next_free free b) bs, last_free (next_free free b) bs, dead_count bs)
    → first_pass free (b ∷ bs)
      ≡ (forwarded free (b ∷ bs), last_free free (b ∷ bs), dead_count (b ∷ bs))
unfolding first_pass
first_step free b bs small one later = elim (Bool-cases (is_white b.gc_color)) [
  | inl dead ↦
      let one' : set_forwarding_pointer b 0 ≡ record b { raw_forwarding_pointer = 0 } =
        rw dead at one in
      rw (dead, first_pass) (rw (rw dead at later, one') refl)
  | inr live ↦
      let one' : set_forwarding_pointer b (free + 8)
          ≡ record b { raw_forwarding_pointer = free + 8 } =
        rw live at one in
      rw (live, first_pass, IsSmall-compute_size b small) (rw (rw live at later, one') refl)
]

pub first_pass-forwarded :
    (free : ℕ) (bs : List AllocatedObject)
    → AllSmall bs
    → free % 8 ≡ 0
    → last_free free bs + 8 < word
    → first_pass free bs ≡ (forwarded free bs, last_free free bs, dead_count bs)
unfolding first_pass
first_pass-forwarded free [] small aligned room = refl
first_pass-forwarded free (b ∷ bs) small aligned room =
    let le = free-le-last_free free (b ∷ bs) in
    let one = forward_one free b small.0 aligned (omega arith) in
    let later =
      first_pass-forwarded (next_free free b) bs small.1 (next_free-aligned free b aligned) room in
    first_step free b bs small.0 one later

pub with_forwarding-IsSmall :
    (free : ℕ) (b : AllocatedObject) → IsSmall b → free % 8 ≡ 0 → IsSmall (with_forwarding free b)
with_forwarding-IsSmall free b small aligned = elim (Bool-cases (is_white b.gc_color)) [
  | inl dead ↦ rw dead (record { unmarked = refl; counted = small.counted })
  | inr live ↦ rw live (record { unmarked = omega arith; counted = small.counted })
]

-- Where the object at a pointer goes, nil for an object that is freed.
abbrev pub address_after : ℕ → ℕ → ℕ → List AllocatedObject → ℕ → Outcome ℕ
address_after nil_object live free [] pointer = abort memory_corruption
address_after nil_object live free (b ∷ bs) pointer =
    if pointer == live + 8
    then (if is_white b.gc_color then ok nil_object else ok (free + 8))
    else address_after nil_object (live + bytes b) (next_free free b) bs pointer

-- The forwarding pointers lead there.
pub forwarded_word-address :
    (nil_object live free : ℕ) (bs : List AllocatedObject) (pointer : ℕ)
    → AllSmall bs
    → free % 8 ≡ 0
    → forwarded_word nil_object (object_at live (forwarded free bs) pointer)
      ≡ address_after nil_object live free bs pointer
unfolding object_at forwarded_word
forwarded_word-address nil_object live free [] pointer small aligned = refl
forwarded_word-address nil_object live free (b ∷ bs) pointer small aligned =
    let small' = with_forwarding-IsSmall free b small.0 aligned in
    let b' = with_forwarding free b in
    let later =
      forwarded_word-address nil_object (live + bytes b) (next_free free b) bs pointer small.1
        (next_free-aligned free b aligned) in
    rw (IsSmall-header_offset b' small', IsSmall-compute_size b' small')
      (elim (Bool-cases (pointer == live + 8)) [
        | inl here ↦
            rw (here, IsSmall-word_before_header b' small')
              (elim (Bool-cases (is_white b.gc_color)) [
                | inl dead ↦ rw dead refl
                | inr alive ↦ rw alive refl
              ])
        | inr there ↦ rw there later
      ])
