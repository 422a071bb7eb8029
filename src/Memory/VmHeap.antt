-- ===== src/Memory/VmHeap.antt =====
-- `VMHeap` of vm/MemoryManager.cpp: a reserved address space, whose front is allocated.
pub mod Rounding
pub mod Allocation
use Prim.Native.Nat.{bit_and}
use lodtalk.Prelude.{
  ℕ, ◌+◌, ◌-◌, ◌*◌, ◌/◌, ◌%◌, ◌^◌, Option, none, some, Bool, ◌&&◌, ltb, leb, if◌then◌else◌,
}
use lodtalk.Outcome.{Outcome, ok, abort, unimplemented}
use lodtalk.ObjectModel.Oop.{word}

pub record VmHeap : Type 0 where
  pub address_space : ℕ
  pub max_capacity : ℕ
  pub capacity : ℕ
  pub size : ℕ
  pub page_size : ℕ

-- `DefaultMaxVMHeapSize` under OBJECT_MODEL_SPUR_64.
abbrev pub default_max_heap_size : ℕ
default_max_heap_size = 16 * 1024 * 1024 * 1024

-- What the operating system answers is given: the size of a page, and the reserved addresses,
-- none where the reservation fails.
pub initialize : ℕ → Option ℕ → Outcome VmHeap
initialize system_page_size reserved = elim reserved [
  | none ↦ abort unimplemented
  | some space ↦ ok (record {
    address_space = space;
    max_capacity = default_max_heap_size;
    capacity = 0;
    size = 0;
    page_size = system_page_size;
  })
]

pub set_size : VmHeap → ℕ → VmHeap
set_size h new_size = record h { size = new_size }

pub get_address_space_end : VmHeap → ℕ
get_address_space_end h = h.address_space + h.max_capacity

unfoldable pub contains_pointer : VmHeap → ℕ → Bool
unfolding get_address_space_end
contains_pointer h pointer = leb h.address_space pointer && ltb pointer (get_address_space_end h)

pub has_capacity_for : VmHeap → ℕ → Bool
has_capacity_for h new_size = leb (h.size + new_size) h.capacity

unfoldable pub has_capacity_threshold_been_reached : VmHeap → Bool
has_capacity_threshold_been_reached h = ltb (h.capacity * 4 / 5) h.size

-- `~` of a `size_t`.
abbrev pub complement : ℕ → ℕ
complement w = word - 1 - w

-- `(newHeapSize + pageSize - 1) & (~ (pageSize - 1))`
unfoldable pub new_capacity : ℕ → ℕ → ℕ
new_capacity page_size new_heap_size =
    bit_and ((new_heap_size + page_size - 1) % word) (complement (page_size - 1))

-- `commit` is `allocateVirtualAddressRegion`, a system call: it takes the start of the address
-- space, an offset and a size, and tells whether the region is now readable and writable.
unfoldable pub allocate : (ℕ → ℕ → ℕ → Bool) → VmHeap → ℕ → VmHeap × Option ℕ
allocate commit h object_size =
    let new_heap_size = (h.size + object_size) % word in
    let result = h.address_space + h.size in
    let capacity' = new_capacity h.page_size new_heap_size in
    if leb new_heap_size h.capacity
    then (record h { size = new_heap_size }, some result)
    else (if commit h.address_space h.capacity ((capacity' + word - h.capacity) % word)
        then (record h { size = new_heap_size; capacity = capacity' }, some result)
        else (h, none))
