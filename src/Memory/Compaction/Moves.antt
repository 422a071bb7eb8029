-- ===== src/Memory/Compaction/Moves.antt =====
-- The calls of `memmove` in the third pass of `compact` of vm/MemoryManager.cpp, one after another.
use lodtalk.Prelude.{
  ℕ, ◌+◌, ◌-◌, ◌%◌, ◌≤◌, ◌<◌, ◌≡◌, refl, sym, ap, ◌∙◌, arith, List, [], ◌∷◌, All, true, ◌&&◌, ltb,
  leb, if◌then◌else◌, ◌⊎◌, inl, inr,
}
use mathlib.Core.Path.{subst}
use lodtalk.Outcome.{Outcome}
use lodtalk.Memory.Compaction.Blocks.{AllocatedObject, compute_size}
use lodtalk.Memory.Compaction.Passes.{Move}
use lodtalk.Memory.Compaction.Small.{IsSmall, IsSmall-compute_size}
use lodtalk.Memory.Compaction.Forwarding.{AllSmall, bytes}
use lodtalk.Memory.Compaction.Sliding.{Slid, slid, done, freed, moved}

-- The bytes of the memory by their addresses.
abbrev pub Bytes : Type 0
Bytes = ℕ → ℕ

-- `memmove` copies as if through a buffer, so the two regions may overlap.
abbrev pub memmove : ℕ → ℕ → ℕ → Bytes → Bytes
memmove destination source n memory a =
    if leb destination a && ltb a (destination + n)
    then memory (a - destination + source)
    else memory a

unfoldable pub run_moves : List Move → Bytes → Bytes
run_moves [] memory = memory
run_moves (m ∷ ms) memory =
    run_moves ms (memmove m.destination m.source (compute_size m.moved) memory)

pub IsSmall-slid :
    (free : ℕ) (b : AllocatedObject) (ws : List ℕ)
    → IsSmall b
    → free % 8 ≡ 0
    → IsSmall (slid free b ws)
IsSmall-slid free b ws small aligned = record { unmarked = omega arith; counted = small.counted }

-- The object of a move is afterwards, byte for byte, where it is moved to.
abbrev pub Carried : Bytes → Bytes → ℕ → Move → Type 0
Carried after before live m =
    (live ≤ m.source)
    × ((k : ℕ) → k < compute_size m.moved → after (m.destination + k) ≡ before (m.source + k))

-- Bytes that an earlier move to lower addresses leaves alone.
Carried-earlier :
    (after before : Bytes) (live free n live' : ℕ) (ms : List Move)
    → free ≤ live
    → live + n ≤ live'
    → All (Carried after (memmove free live n before) live') ms
    → All (Carried after before live) ms
Carried-earlier after before live free n live' [] le past h = tt
Carried-earlier after before live free n live' (m ∷ ms) le past h = (
  (omega (arith, h.0.0), λ k lt. h.0.1 k lt ∙ ground (arith, h.0.0)),
  Carried-earlier after before live free n live' ms le past h.1,
)

Carried-later :
    (after before : Bytes) (live live' : ℕ) (ms : List Move)
    → live ≤ live'
    → All (Carried after before live') ms
    → All (Carried after before live) ms
Carried-later after before live live' [] le h = tt
Carried-later after before live live' (m ∷ ms) le h =
    ((omega (arith, h.0.0), h.0.1), Carried-later after before live live' ms le h.1)

memmove-inside :
    (destination source n k : ℕ) (memory : Bytes)
    → k < n
    → memmove destination source n memory (destination + k) ≡ memory (source + k)
memmove-inside destination source n k memory h =
    let low : leb destination (destination + k) ≡ true = ground arith in
    let high : ltb (destination + k) (destination + n) ≡ true = ground arith in
    rw (low, high) (ap memory (omega arith))

-- No address below the free one is written.
run_moves-below :
    {f : ℕ → Outcome ℕ} {live free : ℕ} {bs : List AllocatedObject} {ms : List Move}
    → Slid f live free bs ms
    → AllSmall bs
    → free % 8 ≡ 0
    → (memory : Bytes) (a : ℕ) → a < free
    → run_moves ms memory a ≡ memory a
unfolding run_moves
run_moves-below done small aligned memory a h = refl
run_moves-below (freed b dead rest) small aligned memory a h =
    run_moves-below rest small.1 aligned memory a h
run_moves-below {free = free} (moved b ws alive words rest) small aligned memory a h =
    run_moves-below rest small.1 (omega arith) _ a (omega arith) ∙ ground arith

run_moves-Carried :
    {f : ℕ → Outcome ℕ} {live free : ℕ} {bs : List AllocatedObject} {ms : List Move}
    → Slid f live free bs ms
    → AllSmall bs
    → free % 8 ≡ 0
    → free ≤ live
    → (memory : Bytes) → All (Carried (run_moves ms memory) memory live) ms
unfolding run_moves
run_moves-Carried done small aligned le memory = tt
run_moves-Carried {live = live} {free = free} (freed {moves = ms} b dead rest) small aligned le
      memory =
    Carried-later (run_moves ms memory) memory live (live + bytes b) ms (omega arith)
      (run_moves-Carried rest small.1 aligned (omega arith) memory)
run_moves-Carried {live = live} {free = free} (moved {moves = ms} b ws alive words rest) small
      aligned le memory =
    let size : compute_size (slid free b ws) ≡ bytes b =
      IsSmall-compute_size (slid free b ws) (IsSmall-slid free b ws small.0 aligned) in
    let n = compute_size (slid free b ws) in
    let memory' = memmove free live n memory in
    (
      (
        omega arith,
        λ k h.
            run_moves-below rest small.1 (omega arith) memory' (free + k) (omega (arith, size))
            ∙ memmove-inside free live n k memory h,
      ),
      Carried-earlier (run_moves ms memory') memory live free n (live + bytes b) ms le
          (omega (arith, size))
          (run_moves-Carried rest small.1 (omega arith) (omega arith) memory'),
    )

abbrev pub In : Move → List Move → Type 0
In m [] = ⊥
In m (x ∷ xs) = (m ≡ x) ⊎ In m xs

Carried-In :
    (after before : Bytes) (live : ℕ) (m : Move) (ms : List Move)
    → All (Carried after before live) ms
    → In m ms
    → Carried after before live m
Carried-In after before live m [] h i = absurd i
Carried-In after before live m (x ∷ xs) h (inl e) = subst (Carried after before live) (sym e) h.0
Carried-In after before live m (x ∷ xs) h (inr i) = Carried-In after before live m xs h.1 i

-- After all the moves each byte of each object stands where the object is moved to.
pub Slid-keeps_bytes :
    {f : ℕ → Outcome ℕ} {live free : ℕ} {bs : List AllocatedObject} {ms : List Move}
    → Slid f live free bs ms
    → AllSmall bs
    → free % 8 ≡ 0
    → free ≤ live
    → (memory : Bytes) (m : Move) (k : ℕ) → In m ms
    → k < compute_size m.moved
    → run_moves ms memory (m.destination + k) ≡ memory (m.source + k)
Slid-keeps_bytes {live = live} {ms = ms} slides small aligned le memory m k i h =
    (Carried-In (run_moves ms memory) memory live m ms
        (run_moves-Carried slides small aligned le memory) i).1
      k h
