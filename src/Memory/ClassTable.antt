-- ===== src/Memory/ClassTable.antt =====
-- `ClassTable` of vm/MemoryManager.cpp: pages of classes, indexed through page and element.
pub mod Pages
pub mod Registry
pub mod Refinement
pub mod Runs
use Prim.Native.Nat.{max}
use lodtalk.Prelude.{
  ℕ, zero, suc, ◌+◌, ◌-◌, ◌/◌, ◌%◌, ◌^◌, List, [], ◌∷◌, ◌++◌, Option, none, some, ◌&&◌, ltb, leb,
  ◌==◌, if◌then◌else◌, length, get_elem?, set, replicate,
}
use lodtalk.Outcome.{Outcome, ok, abort, ◌>>=◌, assertion, uninitialised}

-- `OopsPerPage` of vm/Constants.hpp, for pages of 4096 bytes and words of 8.
abbrev pub oops_per_page : ℕ
oops_per_page = 4096 / 8

-- `pageTable` and `size`, and the field `identityHash` of the header of every object, by the
-- object's address. An object is known by the word that points to it.
pub record ClassTable : Type 0 where
  pub page_table : List (List ℕ)
  pub size : ℕ
  pub identity_hash : ℕ → ℕ

-- `pageTable[pageIndex][elementIndex]`, read and written. Outside of the pages nothing is there.
abbrev pub element : List (List ℕ) → ℕ → ℕ → Option ℕ
element pages p e = elim (get_elem? pages p) [ none ↦ none | some page ↦ get_elem? page e ]

abbrev pub set_element : List (List ℕ) → ℕ → ℕ → ℕ → List (List ℕ)
set_element pages p e v = elim (get_elem? pages p) [
  | none ↦ pages
  | some page ↦ set pages p (set page e v)
]

unfoldable pub read_element : List (List ℕ) → ℕ → ℕ → Outcome ℕ
read_element pages p e = elim (element pages p e) [ none ↦ abort uninitialised | some v ↦ ok v ]

unfoldable pub write_element : List (List ℕ) → ℕ → ℕ → ℕ → Outcome (List (List ℕ))
write_element pages p e v = elim (element pages p e) [
  | none ↦ abort uninitialised
  | some old ↦ ok (set_element pages p e v)
]

-- `identityHash` has 22 bits.
abbrev pub set_hash : (ℕ → ℕ) → ℕ → ℕ → ℕ → ℕ
set_hash hash object index o = if o == object then index % 2 ^ 22 else hash o

unfoldable pub set_class_at_index : ClassTable → ℕ → ℕ → Outcome ClassTable
unfolding write_element
set_class_at_index t description index =
    if ltb index t.size
    then (do
      written ←
          write_element t.page_table (index / oops_per_page) (index % oops_per_page) description
      ok (record t { page_table = written }))
    else abort assertion

-- `nil_object` is the address of `NilObject`, which the linker chooses.
module _ (nil_object : ℕ) where
  -- `new Oop[OopsPerPage]`, whose elements are nil.
  unfoldable pub allocate_page : List (List ℕ) → List (List ℕ)
  allocate_page pages = pages ++ replicate oops_per_page nil_object ∷ []

  -- `for(size_t i = pageTable.size(); i < count; ++i) allocatePage();` with the rounds left.
  unfoldable pub allocate_pages : ℕ → List (List ℕ) → List (List ℕ)
  unfolding allocate_page
  allocate_pages zero pages = pages
  allocate_pages (suc rounds) pages = allocate_pages rounds (allocate_page pages)

  unfoldable pub get_class_from_index : ClassTable → ℕ → Outcome ℕ
  unfolding read_element
  get_class_from_index t index =
      if leb t.size index
      then ok nil_object
      else read_element t.page_table (index / oops_per_page) (index % oops_per_page)

  -- `if(elementIndex == 0 && pageIndex == pageTable.size()) allocatePage();`
  unfoldable pub pages_for_next : ClassTable → List (List ℕ)
  unfolding allocate_page
  pages_for_next t =
      if (t.size % oops_per_page == 0) && (t.size / oops_per_page == length t.page_table)
      then allocate_page t.page_table
      else t.page_table

  -- The result is the index as `unsigned int`.
  unfoldable pub register_class : ClassTable → ℕ → Outcome (ClassTable × ℕ)
  unfolding pages_for_next write_element
  register_class t clazz = do
    written ←
        write_element (pages_for_next t) (t.size / oops_per_page) (t.size % oops_per_page) clazz
    ok (
      record {
        page_table = written;
        size = t.size + 1;
        identity_hash = set_hash t.identity_hash clazz (t.size % 2 ^ 32);
      },
      t.size % 2 ^ 32,
    )

  unfoldable pub add_special_class : ClassTable → ℕ → ℕ → Outcome ClassTable
  unfolding allocate_pages write_element
  add_special_class t description index = do
    let page_index = index / oops_per_page
    let pages = allocate_pages (page_index + 1 - length t.page_table) t.page_table
    written ← write_element pages page_index (index % oops_per_page) description
    ok (record {
      page_table = written;
      size = max t.size (index + 1);
      identity_hash = set_hash t.identity_hash description (index % 2 ^ 32);
    })
