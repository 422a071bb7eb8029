-- ===== src/Memory/Collection/Allocation.antt =====
-- What `allocateObjectMemory` of vm/MemoryManager.cpp gives, on every branch.
use lodtalk.Prelude.{
  ℕ, ◌+◌, ◌*◌, ◌/◌, ◌≤◌, ◌<◌, ◌≡◌, refl, ap, arith, Option, none, some, Bool, true, false, not,
  ◌||◌, ltb, leb, if◌then◌else◌, Bool-cases, ◌⊎◌, inl, inr, ltb→lt,
}
use lodtalk.Outcome.{ok, abort, null_pointer, assertion}
use lodtalk.Memory.VmHeap.{VmHeap, allocate, has_capacity_threshold_been_reached}
use lodtalk.Memory.Collection.{
  Control, Allocator, write, queue_garbage_collection, allocate_object_memory,
}
use lodtalk.Memory.Collection.Requests.{or_true, or_false}

allocate-address :
    (commit : ℕ → ℕ → ℕ → Bool) (h : VmHeap) (n a : ℕ)
    → (allocate commit h n).1 ≡ some a
    → a ≡ h.address_space + h.size
unfolding allocate
allocate-address commit h n a e = ground arith

-- The result of a successful allocation.
pub record IsAllocated (s : Allocator) (big : Bool) (s' : Allocator) (p : ℕ) : Type 0 where
  pub address : p ≡ s.heap.address_space + s.heap.size + (if big then 16 else 8)
  pub header : s'.word_at p ≡ 0
  pub mark : s'.word_at (s.heap.address_space + s.heap.size) ≡ (if big then 1 else 0)
  pub queued :
      s'.requests.garbage_collection_queued
      ≡ (s.requests.garbage_collection_queued || leb s.heap.size (s.heap.capacity * 4 / 5))

Option-cases {ℓ} : {A : Type ℓ} (o : Option A) → (o ≡ none) ⊎ ((a : A) × (o ≡ some a))
Option-cases none = inl refl
Option-cases (some a) = inr (a, refl)

mark_read :
    (f : ℕ → ℕ) (a : ℕ) (big : Bool)
    → write (write f a (if big then 1 else 0)) (a + (if big then 16 else 8)) 0 a
      ≡ (if big then 1 else 0)
mark_read f a true = ground arith
mark_read f a false = ground arith

-- The state after a successful allocation at `a`.
allocated : (ℕ → ℕ → ℕ → Bool) → Allocator → ℕ → Bool → ℕ → Allocator
allocated commit s n big a = record {
  requests =
      if not (has_capacity_threshold_been_reached s.heap)
      then queue_garbage_collection s.requests
      else s.requests;
  heap = (allocate commit s.heap (n + (if big then 16 else 8))).0;
  word_at = write (write s.word_at a (if big then 1 else 0)) (a + (if big then 16 else 8)) 0;
}

queued_after :
    (s : Control) (h : VmHeap)
    → (if not (has_capacity_threshold_been_reached h)
        then queue_garbage_collection s
        else s).garbage_collection_queued
      ≡ (s.garbage_collection_queued || leb h.size (h.capacity * 4 / 5))
unfolding has_capacity_threshold_been_reached queue_garbage_collection
queued_after s h =
    ground (arith, or_true s.garbage_collection_queued, or_false s.garbage_collection_queued)

allocated-IsAllocated :
    (commit : ℕ → ℕ → ℕ → Bool) (s : Allocator) (n : ℕ) (big : Bool) (a : ℕ)
    → (allocate commit s.heap (n + (if big then 16 else 8))).1 ≡ some a
    → IsAllocated s big (allocated commit s n big a) (a + (if big then 16 else 8))
unfolding allocated
allocated-IsAllocated commit s n big a given =
    let extra : ℕ = if big then 16 else 8 in
    let at = allocate-address commit s.heap (n + extra) a given in
    record {
      address = ap (λ (x : ℕ). x + extra) at;
      header = ground arith;
      mark = rw (← at) (mark_read s.word_at a big);
      queued = queued_after s.requests s.heap;
    }

-- allocateObjectMemory, on every branch. A size of less than a header fails the assertion. Where the
-- heap gives null, the null result is written through. Otherwise the heap is the one that has
-- allocated the size and 8 more bytes, or 16 for a big object; the result is the address that many
-- bytes past the old end of the heap; the word there, the header, is zero, and the word at the old
-- end is 1 for a big object and 0 for another. A collection is queued afterwards exactly if it was
-- before or if the heap had at most 4/5 of its capacity in use.
pub allocate_object_memory-cases :
    (commit : ℕ → ℕ → ℕ → Bool) (s : Allocator) (n : ℕ) (big : Bool)
    → ((n < 8) × (allocate_object_memory commit s n big ≡ abort assertion))
      ⊎ ((8 ≤ n)
          × ((allocate commit s.heap (n + (if big then 16 else 8))).1 ≡ none)
          × (allocate_object_memory commit s n big ≡ abort null_pointer))
      ⊎ ((8 ≤ n)
          × (s' : Allocator) × (p : ℕ) × (allocate_object_memory commit s n big ≡ ok (s', p))
          × (s'.heap ≡ (allocate commit s.heap (n + (if big then 16 else 8))).0)
          × IsAllocated s big s' p)
unfolding allocate_object_memory allocated
allocate_object_memory-cases commit s n big = elim (Bool-cases (ltb n 8)) [
  | inl short ↦ inl (ltb→lt n 8 short, rw short refl)
  | inr enough ↦
      let extra : ℕ = if big then 16 else 8 in
      elim (Option-cases (allocate commit s.heap (n + extra)).1) [
        | inl refused ↦
            inr (inl (ground arith, refused, rw (enough, refused, allocate_object_memory) refl))
        | inr (a, given) ↦ inr (
            inr (
              ground arith,
              allocated commit s n big a,
              a + extra,
              rw (enough, given, allocate_object_memory) refl,
              refl,
              allocated-IsAllocated commit s n big a given,
            ))
      ]
]
