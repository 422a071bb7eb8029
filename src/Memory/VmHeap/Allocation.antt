-- ===== src/Memory/VmHeap/Allocation.antt =====
-- What `VMHeap::allocate` gives, for one allocation and for a run of them.
use lodtalk.Prelude.{
  ℕ, ◌+◌, ◌-◌, ◌%◌, ◌^◌, ◌≤◌, ◌<◌, ◌≡◌, refl, sym, arith, ◌⊎◌, inl, inr, Option, none, some, Bool,
  leb, Bool-cases, List, [], ◌∷◌,
}
use mathlib.Core.Path.{subst}
use native.Mathlib.Nat.{mod-eq_of_lt}
use lodtalk.ObjectModel.Oop.{word}
use lodtalk.Memory.VmHeap.{VmHeap, allocate, new_capacity}
use lodtalk.Memory.VmHeap.Rounding.{pow_pos, new_capacity_lem}

-- A page has 2 ^ k bytes, and whole pages are allocated that hold the objects.
pub record IsValid (k : ℕ) (h : VmHeap) : Type 0 where
  pub paged : h.page_size ≡ 2 ^ k
  pub within : h.size ≤ h.capacity
  pub rounded : h.capacity % 2 ^ k ≡ 0

-- The result of an allocation of `n` bytes: the bytes past the old end, or nothing and the old heap.
abbrev pub Allocated : VmHeap → ℕ → VmHeap × Option ℕ → Type 0
Allocated h n (h', some address) =
    (address ≡ h.address_space + h.size)
    × (h'.address_space ≡ h.address_space)
    × (h'.size ≡ h.size + n)
    × (h.capacity ≤ h'.capacity)
Allocated h n (h', none) = (h' ≡ h) × (h.capacity < h.size + n)

abbrev pub sum : List ℕ → ℕ
sum [] = 0
sum (n ∷ ns) = n + sum ns

-- Blocks, each an address and a size, that fill the addresses from `first` to `last` in order.
abbrev pub Consecutive : ℕ → ℕ → List (ℕ × ℕ) → Type 0
Consecutive first last [] = first ≡ last
Consecutive first last ((address, n) ∷ blocks) =
    (address ≡ first) × Consecutive (first + n) last blocks

-- A block in front of blocks that start at the new end.
then_Consecutive :
    (h h' : VmHeap) (n : ℕ) (answer : Option ℕ)
    → Allocated h n (h', answer)
    → (h'.size ≤ h.size + n)
      × ((last : ℕ) (blocks : List (ℕ × ℕ))
          → Consecutive (h'.address_space + h'.size) last blocks
          → Consecutive
              (h.address_space + h.size)
              last
              (elim answer [ none ↦ blocks | some address ↦ (address, n) ∷ blocks ]))
then_Consecutive h h' n none (same, over) = rw same (omega arith, λ last blocks c. c)
then_Consecutive h h' n (some address) (at, base, grown, _) = (
  omega arith,
  λ last blocks c. (at, subst (λ a. Consecutive a last blocks) (omega (arith, base, grown)) c),
)

module _ (commit : ℕ → ℕ → ℕ → Bool) (j k : ℕ) (bits : j + k ≡ 64) where
  rounding :
      (h : VmHeap) (n : ℕ)
      → IsValid k h
      → h.size + n + 2 ^ k ≤ word
      → (h.size + n ≤ new_capacity h.page_size (h.size + n))
        × (new_capacity h.page_size (h.size + n) < h.size + n + 2 ^ k)
        × (new_capacity h.page_size (h.size + n) % 2 ^ k ≡ 0)
  rounding h n v small =
      subst
        (λ p.
          (h.size + n ≤ new_capacity p (h.size + n))
          × (new_capacity p (h.size + n) < h.size + n + 2 ^ k)
          × (new_capacity p (h.size + n) % 2 ^ k ≡ 0))
        (sym v.paged) (new_capacity_lem j k bits (h.size + n) small)

  -- VMHeap::allocate, where the size and a page do not overflow 64 bits, keeps the heap valid: the
  -- size is at most the capacity, which is whole pages. It gives the address at the old end, and then
  -- the size has grown by the bytes asked for and the capacity has not shrunk; or it gives null and
  -- leaves the heap as it was, which happens only if the bytes do not fit the capacity. The
  -- capacity exceeds the new size by less than a page where it was changed.
  pub allocate-IsValid :
      (h : VmHeap) (n : ℕ)
      → IsValid k h
      → h.size + n + 2 ^ k ≤ word
      → IsValid k (allocate commit h n).0
        × Allocated h n (allocate commit h n)
        × (((allocate commit h n).0.capacity ≡ h.capacity)
            ⊎ ((allocate commit h n).0.capacity < h.size + n + 2 ^ k))
  unfolding allocate
  allocate-IsValid h n v small =
      let total : (h.size + n) % word ≡ h.size + n = mod-eq_of_lt (omega (arith, pow_pos k)) in
      let (enough, near, whole) = rounding h n v small in
      let capacity' = new_capacity h.page_size (h.size + n) in
      rw total (elim (Bool-cases (leb (h.size + n) h.capacity)) [
        | inl fits ↦ rw fits (
          record { paged = v.paged; within = ground arith; rounded = v.rounded },
          (refl, refl, refl, omega arith),
          inl refl,
        )
        | inr full ↦
            let over : h.capacity < h.size + n = ground arith in
            rw full
              (elim (Bool-cases
                (commit h.address_space h.capacity ((capacity' + word - h.capacity) % word))) [
                  | inl granted ↦ rw granted (
                    record { paged = v.paged; within = enough; rounded = whole },
                    (refl, refl, refl, omega arith),
                    inr near,
                  )
                  | inr refused ↦ rw refused (v, (refl, over), inl refl)
                ])
      ])

  -- The address and size of each successful allocation of a run.
  pub allocate_run : VmHeap → List ℕ → VmHeap × List (ℕ × ℕ)
  allocate_run h [] = (h, [])
  allocate_run h (n ∷ ns) =
      let (h', answer) = allocate commit h n in
      let (last, blocks) = allocate_run h' ns in
      (last, elim answer [ none ↦ blocks | some address ↦ (address, n) ∷ blocks ])

  -- The objects that are allocated fill the heap without gaps and without overlaps, whichever of the
  -- requests the operating system refuses: each block starts where the last one ended, the first at
  -- the old end of the heap, and the last one ends at the new end. The heap stays valid. The sizes
  -- asked for and a page must not overflow 64 bits.
  pub allocate_run-Consecutive :
      (h : VmHeap) (ns : List ℕ)
      → IsValid k h
      → h.size + sum ns + 2 ^ k ≤ word
      → IsValid k (allocate_run h ns).0
        × Consecutive
            (h.address_space + h.size)
            ((allocate_run h ns).0.address_space + (allocate_run h ns).0.size)
            (allocate_run h ns).1
  unfolding allocate_run
  allocate_run-Consecutive h [] v small = (v, refl)
  allocate_run-Consecutive h (n ∷ ns) v small =
      let (valid, done, _) = allocate-IsValid h n v (omega arith) in
      let (h', answer) = allocate commit h n in
      let next = then_Consecutive h h' n answer done in
      let (last_valid, rest) = allocate_run-Consecutive h' ns valid (omega (arith, next.0)) in
      (last_valid, next.1 _ _ rest)
