-- ===== src/Memory/References/Removal.antt =====
-- What `unregisterOopReference` of vm/MemoryManager.cpp does to the list of references.
use lodtalk.Prelude.{ℕ, ◌≡◌, refl, sym, ap, ◌∙◌, arith, List, [], ◌∷◌, ◌++◌, Option, none, some}
use mathlib.Core.Path.{subst, ap₂}
use lodtalk.Memory.References.{References, assign, assign_at, or_else, unregister_oop_reference}
use lodtalk.Memory.References.Segments.{
  Links, head_or, last_or, last_of, Segment, NotIn, Distinct, last_or-last_of, Segment-prev,
  Segment-next, relink_last, relink_first, Segment-split, Segment-append,
}
use lodtalk.Memory.References.Represents.{Represents}

abbrev PointerNotIn : Option ℕ → List ℕ → Type 0
PointerNotIn none xs = Unit {0}
PointerNotIn (some a) xs = NotIn a xs

-- What stands in a list of distinct references.
NotIn-append : (a : ℕ) (xs ys : List ℕ) → NotIn a (xs ++ ys) → NotIn a xs × NotIn a ys
NotIn-append a [] ys h = (tt, h)
NotIn-append a (x ∷ xs) ys h = let (front, back) = NotIn-append a xs ys h.1 in ((h.0, front), back)

append-NotIn : (a : ℕ) (xs ys : List ℕ) → NotIn a xs → NotIn a ys → NotIn a (xs ++ ys)
append-NotIn a [] ys h k = k
append-NotIn a (x ∷ xs) ys h k = (h.0, append-NotIn a xs ys h.1 k)

Distinct-without :
    (xs : List ℕ) (r : ℕ) (ys : List ℕ) → Distinct (xs ++ r ∷ ys) → Distinct (xs ++ ys)
Distinct-without [] r ys d = d.1
Distinct-without (x ∷ xs) r ys d =
    let (front, back) = NotIn-append x xs (r ∷ ys) d.0 in
    (append-NotIn x xs ys front back.1, Distinct-without xs r ys d.1)

Distinct-front : (xs ys : List ℕ) → Distinct (xs ++ ys) → Distinct xs
Distinct-front [] ys d = tt
Distinct-front (x ∷ xs) ys d = ((NotIn-append x xs ys d.0).0, Distinct-front xs ys d.1)

Distinct-back : (xs ys : List ℕ) → Distinct (xs ++ ys) → Distinct ys
Distinct-back [] ys d = d
Distinct-back (x ∷ xs) ys d = Distinct-back xs ys d.1

-- The last one before a stretch is not in it, nor is the first one after it.
last-NotIn : (x : ℕ) (xs ys : List ℕ) → Distinct (x ∷ xs ++ ys) → NotIn (last_of x xs) ys
last-NotIn x [] ys d = d.0
last-NotIn x (z ∷ xs) ys d = last-NotIn z xs ys d.1

head-NotIn : (xs : List ℕ) (y : ℕ) (ys : List ℕ) → Distinct (xs ++ y ∷ ys) → NotIn y xs
head-NotIn [] y ys d = tt
head-NotIn (x ∷ xs) y ys d =
    (λ e. (NotIn-append x xs (y ∷ ys) d.0).1.0 (sym e), head-NotIn xs y ys d.1)

last_or-NotIn : (xs ys : List ℕ) → Distinct (xs ++ ys) → PointerNotIn (last_or none xs) ys
last_or-NotIn [] ys d = tt
last_or-NotIn (x ∷ xs) ys d =
    subst (λ p. PointerNotIn p ys) (sym (last_or-last_of none x xs)) (last-NotIn x xs ys d)

head_or-NotIn : (xs ys : List ℕ) → Distinct (xs ++ ys) → PointerNotIn (head_or none ys) xs
head_or-NotIn xs [] d = tt
head_or-NotIn xs (y ∷ ys) d = head-NotIn xs y ys d

-- The stretch before a removed reference, and the one after it.
module _ (prev next : Links) where
  left_of :
      (xs : List ℕ) (q q' v : Option ℕ)
      → Distinct xs
      → PointerNotIn q' xs
      → Segment prev next none xs q
      → Segment (assign_at prev q' v) (assign_at next (last_or none xs) q') none xs q'
  left_of [] q q' v d out h = tt
  left_of (x ∷ xs) q none v d out h =
      subst (λ p. Segment prev (assign_at next p none) none (x ∷ xs) none)
        (sym (last_or-last_of none x xs)) (relink_last prev next none x xs q none d h)
  left_of (x ∷ xs) q (some b) v d out h =
      subst (λ p. Segment (assign prev b v) (assign_at next p (some b)) none (x ∷ xs) (some b))
        (sym (last_or-last_of none x xs))
        (Segment-prev prev (assign next (last_of x xs) (some b)) b v none (x ∷ xs) (some b) out
          (relink_last prev next none x xs q (some b) d h))

  right_of :
      (ys : List ℕ) (p p' v : Option ℕ)
      → Distinct ys
      → PointerNotIn p' ys
      → Segment prev next p ys none
      → Segment (assign_at prev (head_or none ys) p') (assign_at next p' v) p' ys none
  right_of [] p p' v d out h = tt
  right_of (y ∷ ys) p none v d out h = relink_first prev next p none y ys none d.0 h
  right_of (y ∷ ys) p (some a) v d out h =
      Segment-next (assign prev y (some a)) next a v (some a) (y ∷ ys) none out
        (relink_first prev next p (some a) y ys none d.0 h)

assign_at-other :
    (f : Links) (p v : Option ℕ) (r : ℕ) → PointerNotIn p (r ∷ []) → assign_at f p v r ≡ f r
assign_at-other f none v r h = refl
assign_at-other f (some a) v r h = ground arith

last_or-append : (p : Option ℕ) (xs ys : List ℕ) → last_or p (xs ++ ys) ≡ last_or (last_or p xs) ys
last_or-append p [] ys = refl
last_or-append p (x ∷ xs) ys = last_or-append (some x) xs ys

-- The ends after a removal.
removed_start :
    (r : ℕ) (xs ys : List ℕ)
    → or_else (last_or none xs) (head_or none ys) (head_or none (xs ++ r ∷ ys))
      ≡ head_or none (xs ++ ys)
removed_start r [] ys = refl
removed_start r (x ∷ xs) ys = rw (last_or-last_of none x xs) refl

removed_end :
    (r : ℕ) (xs ys : List ℕ)
    → or_else (head_or none ys) (last_or none xs) (last_or none (xs ++ r ∷ ys))
      ≡ last_or none (xs ++ ys)
removed_end r xs [] = sym (last_or-append none xs [])
removed_end r xs (y ∷ ys) =
    last_or-append none xs (r ∷ y ∷ ys) ∙ sym (last_or-append none xs (y ∷ ys))

-- `unregisterOopReference` by the neighbours of the reference.
unlink : References → Option ℕ → Option ℕ → References
unlink s p q = record {
  prev = assign_at s.prev q p;
  next = assign_at s.next p q;
  first_reference = or_else p q s.first_reference;
  last_reference = or_else q p s.last_reference;
}

unregister-unlink :
    (s : References) (r : ℕ)
    → PointerNotIn (s.prev r) (r ∷ [])
    → PointerNotIn (s.next r) (r ∷ [])
    → unregister_oop_reference s r ≡ unlink s (s.prev r) (s.next r)
unfolding unregister_oop_reference unlink
unregister-unlink s r before after =
    rw
      (
        assign_at-other s.next (s.prev r) (s.next r) r before,
        assign_at-other s.prev (s.next r) (s.prev r) r after,
      )
      refl

unlink-Represents :
    (s : References) (xs : List ℕ) (r : ℕ) (ys : List ℕ)
    → Represents s (xs ++ r ∷ ys)
    → Represents (unlink s (last_or none xs) (head_or none ys)) (xs ++ ys)
unfolding unlink
unlink-Represents s xs r ys h =
    let (front, here) = Segment-split s.prev s.next none xs (r ∷ ys) none h.linked in
    let d = Distinct-without xs r ys h.distinct in
    let p = last_or none xs in
    let q = head_or none ys in
    record {
      linked =
          Segment-append (assign_at s.prev q p) (assign_at s.next p q) none xs ys none
            (left_of s.prev s.next xs (some r) q p (Distinct-front xs ys d) (head_or-NotIn xs ys d)
              front)
            (right_of s.prev s.next ys (some r) p q (Distinct-back xs ys d) (last_or-NotIn xs ys d)
              here.2);
      starts = ap (or_else p q) h.starts ∙ removed_start r xs ys;
      ends = ap (or_else q p) h.ends ∙ removed_end r xs ys;
      distinct = d;
    }

first_only :
    (p : Option ℕ) (r : ℕ) (ys : List ℕ) → PointerNotIn p (r ∷ ys) → PointerNotIn p (r ∷ [])
first_only none r ys h = tt
first_only (some a) r ys h = (h.0, tt)

head-other : (r : ℕ) (ys : List ℕ) → NotIn r ys → PointerNotIn (head_or none ys) (r ∷ [])
head-other r [] h = tt
head-other r (y ∷ ys) h = (λ e. h.0 (sym e), tt)

pub unregister-Represents :
    (s : References) (xs : List ℕ) (r : ℕ) (ys : List ℕ)
    → Represents s (xs ++ r ∷ ys)
    → Represents (unregister_oop_reference s r) (xs ++ ys)
unregister-Represents s xs r ys h =
    let (front, here) = Segment-split s.prev s.next none xs (r ∷ ys) none h.linked in
    let before =
      subst (λ p. PointerNotIn p (r ∷ [])) (sym here.0)
        (first_only (last_or none xs) r ys (last_or-NotIn xs (r ∷ ys) h.distinct)) in
    let after =
      subst (λ q. PointerNotIn q (r ∷ [])) (sym here.1)
        (head-other r ys (Distinct-back xs (r ∷ ys) h.distinct).0) in
    let neighbours = unregister-unlink s r before after ∙ ap₂ (unlink s) here.0 here.1 in
    subst (λ t. Represents t (xs ++ ys)) (sym neighbours) (unlink-Represents s xs r ys h)
