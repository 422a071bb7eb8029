-- ===== src/Memory/Compaction/Sliding.antt =====
-- The second and third pass of `compact` of vm/MemoryManager.cpp on a heap without big objects.
use lodtalk.Prelude.{
  ℕ, ◌+◌, ◌%◌, ◌<◌, ◌≡◌, refl, sym, arith, List, [], ◌∷◌, true, false, All, leb, ◌==◌,
  if◌then◌else◌, Bool-cases, inl, inr,
}
use mathlib.Core.Path.{subst}
use lodtalk.Outcome.{Outcome, ok, abort, out_of_fuel, ◌>>=◌}
use lodtalk.ObjectModel.Oop.{word}
use lodtalk.Memory.Collector.Objects.{white, of_compiled_method}
use lodtalk.Memory.Collector.Marking.{is_white}
use lodtalk.Memory.Compaction.Blocks.{
  AllocatedObject, get_forwarding_destination, has_slots, update_first, update_literals,
  updated_slot_count, update_pointers_of,
}
use lodtalk.Memory.Compaction.Passes.{second_pass, third_pass, Move}
use lodtalk.Memory.Compaction.Small.{
  IsSmall, IsSmall-compute_size, IsSmall-get_forwarding_destination,
}
use lodtalk.Memory.Compaction.Forwarding.{
  AllSmall, bytes, last_free, forwarded, with_forwarding, with_forwarding-IsSmall,
  free-le-last_free,
}

-- The words of an object with fewer than 255 slots, with its pointers updated.
abbrev pub new_words : (ℕ → Outcome ℕ) → AllocatedObject → Outcome (List ℕ)
new_words f b =
    (if has_slots b.object_format then update_first b.slot_count f b.words else ok b.words)
    >>= λ slots.
        if leb of_compiled_method b.object_format then update_literals f slots else ok slots

update_pointers_of-words :
    (f : ℕ → Outcome ℕ) (b : AllocatedObject) (free : ℕ) (ws : List ℕ)
    → IsSmall b
    → new_words f b ≡ ok ws
    → update_pointers_of f (with_forwarding free b)
      ≡ ok (record (with_forwarding free b) { words = ws })
unfolding update_pointers_of updated_slot_count
update_pointers_of-words f b free ws small e =
    let count : (b.slot_count == 255) ≡ false = ground (arith, small.counted) in
    rw count (
      finish (if has_slots b.object_format then update_first b.slot_count f b.words else ok b.words)
        e)
  where
    finish :
        (slots : Outcome (List ℕ))
        → (slots >>= λ s.
            if leb of_compiled_method b.object_format then update_literals f s else ok s)
          ≡ ok ws
        → (slots >>= λ s.
            (if leb of_compiled_method b.object_format then update_literals f s else ok s)
            >>= λ all. ok (record (with_forwarding free b) { words = all }))
          ≡ ok (record (with_forwarding free b) { words = ws })
    finish (ok s) h = rw h refl
    finish (abort x) h = cc
    finish out_of_fuel h = cc

-- A live object as it is at the end.
abbrev pub slid : ℕ → AllocatedObject → List ℕ → AllocatedObject
slid free b ws = record b { raw_forwarding_pointer = free + 8; gc_color = white; words = ws }

-- The live objects, from the first at `live` on, are moved in order to the free address on; their
-- pointers are updated by `f` and their colours cleared.
pub data Slid (f : ℕ → Outcome ℕ) : ℕ → ℕ → List AllocatedObject → List Move → Type 0 where
  done : {live free : ℕ} → Slid f live free [] []
  freed :
      {live free : ℕ} {bs : List AllocatedObject} {moves : List Move} (b : AllocatedObject)
      → is_white b.gc_color ≡ true
      → Slid f (live + bytes b) free bs moves
      → Slid f live free (b ∷ bs) moves
  moved :
      {live free : ℕ} {bs : List AllocatedObject} {moves : List Move} (b : AllocatedObject)
      (ws : List ℕ)
      → is_white b.gc_color ≡ false
      → new_words f b ≡ ok ws
      → Slid f (live + bytes b) (free + bytes b) bs moves
      → Slid f live free
          (b ∷ bs)
          (record { destination = free; source = live; moved = slid free b ws } ∷ moves)

-- The pointers of the live objects can be updated.
abbrev pub Updatable : (ℕ → Outcome ℕ) → List AllocatedObject → Type 0
Updatable f bs = All (λ b. is_white b.gc_color ≡ false → (ws : List ℕ) × (new_words f b ≡ ok ws)) bs

-- One object of the passes, a dead one and a live one.
module _ (f : ℕ → Outcome ℕ) (live free : ℕ) (b : AllocatedObject) (bs us : List AllocatedObject)
    (small : IsSmall b) (aligned : free % 8 ≡ 0) where
  dead_second :
      is_white b.gc_color ≡ true
      → second_pass f (forwarded free bs) ≡ ok us
      → second_pass f (forwarded free (b ∷ bs)) ≡ ok (with_forwarding free b ∷ us)
  unfolding second_pass
  dead_second dead second = rw (dead, second_pass) (rw second refl)

  dead_third :
      is_white b.gc_color ≡ true
      → third_pass live (with_forwarding free b ∷ us) ≡ third_pass (live + bytes b) us
  unfolding third_pass
  dead_third dead =
      let small' = with_forwarding-IsSmall free b small aligned in
      rw (IsSmall-compute_size (with_forwarding free b) small', dead) refl

  live_second :
      (ws : List ℕ)
      → is_white b.gc_color ≡ false
      → new_words f b ≡ ok ws
      → second_pass f (forwarded (free + bytes b) bs) ≡ ok us
      → second_pass f (forwarded free (b ∷ bs))
        ≡ ok (record (with_forwarding free b) { words = ws } ∷ us)
  unfolding second_pass
  live_second ws alive words second =
      let updated = update_pointers_of-words f b free ws small words in
      rw (updated, alive, second_pass) (rw second refl)

  live_third :
      (ws : List ℕ)
      → is_white b.gc_color ≡ false
      → free + 8 < word
      → third_pass live (record (with_forwarding free b) { words = ws } ∷ us)
        ≡ record { destination = free; source = live; moved = slid free b ws }
          ∷ third_pass (live + bytes b) us
  unfolding third_pass
  live_third ws alive room =
      let b' = record (with_forwarding free b) { words = ws } in
      let small' : IsSmall b' =
        rw alive (record { unmarked = omega arith; counted = small.counted }) in
      let to : get_forwarding_destination b' ≡ free =
        IsSmall-get_forwarding_destination b' small' free (rw alive refl) room in
      rw (IsSmall-compute_size b' small', to, alive) refl

module _ (f : ℕ → Outcome ℕ) where
  pub passes-Slid :
      (live free : ℕ) (bs : List AllocatedObject)
      → AllSmall bs
      → Updatable f bs
      → free % 8 ≡ 0
      → last_free free bs + 8 < word
      → (us : List AllocatedObject) × (second_pass f (forwarded free bs) ≡ ok us)
        × Slid f live free bs (third_pass live us)
  unfolding second_pass third_pass
  passes-Slid live free [] small up aligned room = ([], refl, done)
  passes-Slid live free (b ∷ bs) small up aligned room = elim (Bool-cases (is_white b.gc_color)) [
    | inl dead ↦
        let (us, second, slides) =
          passes-Slid (live + bytes b) free bs small.1 up.1 aligned (rw dead at room) in
        (
          with_forwarding free b ∷ us,
          dead_second f live free b bs us small.0 aligned dead second,
          subst (Slid f live free (b ∷ bs))
              (sym (dead_third f live free b bs us small.0 aligned dead)) (freed b dead slides),
        )
    | inr alive ↦
        let (ws, words) = up.0 alive in
        let (us, second, slides) =
          passes-Slid (live + bytes b) (free + bytes b) bs small.1 up.1 (omega arith)
            (rw alive at room) in
        let enough : free + 8 < word = omega (arith, free-le-last_free free (b ∷ bs)) in
        (
          record (with_forwarding free b) { words = ws } ∷ us,
          live_second f live free b bs us small.0 aligned ws alive words second,
          subst (Slid f live free (b ∷ bs))
              (sym (live_third f live free b bs us small.0 aligned ws alive enough))
              (moved b ws alive words slides),
        )
  ]
