-- ===== src/Memory/ClassTable/Pages.antt =====
-- Reads and writes of the paged table of classes, through the index of a class.
use lodtalk.Prelude.{
  ℕ, zero, suc, ◌+◌, ◌*◌, ◌/◌, ◌%◌, ◌≤◌, ◌<◌, ◌≡◌, refl, arith, List, [], ◌∷◌, ◌++◌, some, ◌&&◌,
  ltb, ◌==◌, if◌then◌else◌, length, get_elem?, set, replicate, length-set, get_elem?-set,
  get_elem?-replicate, get_elem?-some, length-append,
}
use lodtalk.Outcome.{ok}
use lodtalk.Memory.ClassTable.{
  oops_per_page, element, set_element, read_element, write_element, allocate_page, allocate_pages,
}

-- The pages hold the first entries of a map, and no others.
abbrev pub Holds : List (List ℕ) → (ℕ → ℕ) → Type 0
Holds pages f =
    (i : ℕ)
    → i < oops_per_page * length pages
    → element pages (i / oops_per_page) (i % oops_per_page) ≡ some (f i)

abbrev pub update : (ℕ → ℕ) → ℕ → ℕ → ℕ → ℕ
update f i v j = if i == j then v else f j

element-page :
    (pages : List (List ℕ)) (p e : ℕ) {old : ℕ}
    → element pages p e ≡ some old
    → (page : List ℕ) × (get_elem? pages p ≡ some page) × (get_elem? page e ≡ some old)
element-page [] p e h = cc
element-page (page ∷ pages) zero e h = (page, refl, h)
element-page (page ∷ pages) (suc p) e h = element-page pages p e h

module _ (pages : List (List ℕ)) (p e v : ℕ) {old : ℕ} (there : element pages p e ≡ some old) where
  element-set_element :
      (p' e' : ℕ)
      → element (set_element pages p e v) p' e'
        ≡ (if (p == p') && (e == e') then some v else element pages p' e')
  element-set_element p' e' =
      let (page, at, old_at) = element-page pages p e there in
      rw (at, set_element, element)
        (ground (
          arith,
          get_elem?-set pages p p' (set page e v) (get_elem?-some pages p at),
          get_elem?-set page e e' v (get_elem?-some page e old_at),
        ))

  length-set_element : length (set_element pages p e v) ≡ length pages
  length-set_element =
      let (page, at, old_at) = element-page pages p e there in
      rw (at, set_element) (length-set pages p (set page e v))

-- A write at an index within the pages.
pub write_element-Holds :
    (pages : List (List ℕ)) (f : ℕ → ℕ) (i v : ℕ)
    → Holds pages f
    → i < oops_per_page * length pages
    → (pages' : List (List ℕ)) × (write_element pages (i / oops_per_page) (i % oops_per_page) v
        ≡ ok pages')
      × Holds pages' (update f i v)
      × (length pages' ≡ length pages)
unfolding write_element
write_element-Holds pages f i v holds h =
    let p = i / oops_per_page in
    let e = i % oops_per_page in
    let there = holds i h in
    let same = length-set_element pages p e v there in
    (
      set_element pages p e v,
      rw (there, write_element) refl,
      λ j lt. ground (
        arith,
        element-set_element pages p e v there (j / oops_per_page) (j % oops_per_page),
        holds j (omega (arith, same)),
      ),
      same,
    )

pub read_element-Holds :
    (pages : List (List ℕ)) (f : ℕ → ℕ) (i : ℕ)
    → Holds pages f
    → i < oops_per_page * length pages
    → read_element pages (i / oops_per_page) (i % oops_per_page) ≡ ok (f i)
unfolding read_element
read_element-Holds pages f i holds h = rw (holds i h, read_element) refl

element-append :
    (pages : List (List ℕ)) (fresh : List ℕ) (p e : ℕ)
    → p ≤ length pages
    → element (pages ++ fresh ∷ []) p e
      ≡ (if ltb p (length pages) then element pages p e else get_elem? fresh e)
element-append [] fresh zero e h = refl
element-append [] fresh (suc p) e h = absurd (omega arith)
element-append (page ∷ pages) fresh zero e h = ground arith
element-append (page ∷ pages) fresh (suc p) e h =
    ground (arith, element-append pages fresh p e (omega arith))

-- A fresh page holds nil, as the map does past its entries.
module _ (nil_object n : ℕ) (f : ℕ → ℕ) (beyond : (i : ℕ) → n ≤ i → f i ≡ nil_object) where
  fresh-Holds :
      (pages : List (List ℕ)) (fresh : List ℕ)
      → ((e : ℕ) → e < oops_per_page → get_elem? fresh e ≡ some nil_object)
      → n ≤ oops_per_page * length pages
      → Holds pages f
      → (i : ℕ) → i < oops_per_page * (length pages + 1)
      → element (pages ++ fresh ∷ []) (i / oops_per_page) (i % oops_per_page) ≡ some (f i)
  fresh-Holds pages fresh filled le holds i h = ground (
    arith,
    element-append pages fresh (i / oops_per_page) (i % oops_per_page) (omega arith),
    filled (i % oops_per_page) (omega arith),
    holds i,
    beyond i,
  )

  pub allocate_page-Holds :
      (pages : List (List ℕ))
      → n ≤ oops_per_page * length pages
      → Holds pages f
      → Holds (allocate_page nil_object pages) f
        × (length (allocate_page nil_object pages) ≡ length pages + 1)
  unfolding allocate_page
  allocate_page-Holds pages le holds =
      let fresh = replicate oops_per_page nil_object in
      (
        λ i lt.
            fresh-Holds pages fresh (λ e h. get_elem?-replicate oops_per_page e nil_object h) le
              holds i (omega (arith, length-append pages (fresh ∷ []))),
        omega (arith, length-append pages (fresh ∷ [])),
      )

  pub allocate_pages-Holds :
      (k : ℕ) (pages : List (List ℕ))
      → n ≤ oops_per_page * length pages
      → Holds pages f
      → Holds (allocate_pages nil_object k pages) f
        × (length (allocate_pages nil_object k pages) ≡ length pages + k)
  unfolding allocate_pages
  allocate_pages-Holds zero pages le holds = (holds, omega arith)
  allocate_pages-Holds (suc k) pages le holds =
      let (one, longer) = allocate_page-Holds pages le holds in
      let (all, length_all) =
        allocate_pages-Holds k (allocate_page nil_object pages) (omega arith) one in
      (all, omega arith)
