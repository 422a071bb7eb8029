-- ===== src/Memory/References/Segments.antt =====
-- Stretches of a doubly linked list.
use lodtalk.Prelude.{ℕ, ◌≡◌, ◌≢◌, refl, arith, List, [], ◌∷◌, ◌++◌, Option, some, All}
use lodtalk.Memory.References.{assign}

abbrev pub Links : Type 0
Links = ℕ → Option ℕ

-- The first of the references, or what follows them; the last one, or what precedes them.
abbrev pub head_or : Option ℕ → List ℕ → Option ℕ
head_or q [] = q
head_or q (x ∷ xs) = some x

abbrev pub last_or : Option ℕ → List ℕ → Option ℕ
last_or p [] = p
last_or p (x ∷ xs) = last_or (some x) xs

abbrev pub last_of : ℕ → List ℕ → ℕ
last_of x [] = x
last_of x (y ∷ ys) = last_of y ys

-- The references are linked in this order, between `p` and `q`.
abbrev pub Segment : Links → Links → Option ℕ → List ℕ → Option ℕ → Type 0
Segment prev next p [] q = Unit {0}
Segment prev next p (x ∷ xs) q =
    (prev x ≡ p) × (next x ≡ head_or q xs) × Segment prev next (some x) xs q

abbrev pub NotIn : ℕ → List ℕ → Type 0
NotIn x xs = All (λ y. x ≢ y) xs

abbrev pub Distinct : List ℕ → Type 0
Distinct [] = Unit {0}
Distinct (x ∷ xs) = NotIn x xs × Distinct xs

pub last_or-last_of :
    (p : Option ℕ) (x : ℕ) (xs : List ℕ) → last_or p (x ∷ xs) ≡ some (last_of x xs)
last_or-last_of p x [] = refl
last_or-last_of p x (y ∷ ys) = last_or-last_of (some x) y ys

pub last_of-ne : (a x : ℕ) (xs : List ℕ) → NotIn a (x ∷ xs) → a ≢ last_of x xs
last_of-ne a x [] h = h.0
last_of-ne a x (y ∷ ys) h = last_of-ne a y ys h.1

module _ (prev next : Links) where
  -- A write to the links of another reference changes nothing.
  pub Segment-prev :
      (a : ℕ) (v p : Option ℕ) (xs : List ℕ) (q : Option ℕ)
      → NotIn a xs
      → Segment prev next p xs q
      → Segment (assign prev a v) next p xs q
  Segment-prev a v p [] q out h = tt
  Segment-prev a v p (x ∷ xs) q out h =
      (ground arith, h.1, Segment-prev a v (some x) xs q out.1 h.2)

  pub Segment-next :
      (a : ℕ) (v p : Option ℕ) (xs : List ℕ) (q : Option ℕ)
      → NotIn a xs
      → Segment prev next p xs q
      → Segment prev (assign next a v) p xs q
  Segment-next a v p [] q out h = tt
  Segment-next a v p (x ∷ xs) q out h =
      (h.0, ground arith, Segment-next a v (some x) xs q out.1 h.2)

  -- A new successor of the last one, and a new predecessor of the first one.
  pub relink_last :
      (p : Option ℕ) (x : ℕ) (xs : List ℕ) (q q' : Option ℕ)
      → Distinct (x ∷ xs)
      → Segment prev next p (x ∷ xs) q
      → Segment prev (assign next (last_of x xs) q') p (x ∷ xs) q'
  relink_last p x [] q q' d h = (h.0, ground arith, tt)
  relink_last p x (y ∷ ys) q q' d h =
      let other = last_of-ne x y ys d.0 in
      (h.0, ground arith, relink_last (some x) y ys q q' d.1 h.2)

  pub relink_first :
      (p p' : Option ℕ) (x : ℕ) (xs : List ℕ) (q : Option ℕ)
      → NotIn x xs
      → Segment prev next p (x ∷ xs) q
      → Segment (assign prev x p') next p' (x ∷ xs) q
  relink_first p p' x xs q out h = (ground arith, h.1, Segment-prev x p' (some x) xs q out h.2)

  pub Segment-split :
      (p : Option ℕ) (xs ys : List ℕ) (q : Option ℕ)
      → Segment prev next p (xs ++ ys) q
      → Segment prev next p xs (head_or q ys) × Segment prev next (last_or p xs) ys q
  Segment-split p [] ys q h = (tt, h)
  Segment-split p (x ∷ []) ys q h = ((h.0, h.1, tt), h.2)
  Segment-split p (x ∷ y ∷ xs) ys q h =
      let (front, back) = Segment-split (some x) (y ∷ xs) ys q h.2 in ((h.0, h.1, front), back)

  pub Segment-append :
      (p : Option ℕ) (xs ys : List ℕ) (q : Option ℕ)
      → Segment prev next p xs (head_or q ys)
      → Segment prev next (last_or p xs) ys q
      → Segment prev next p (xs ++ ys) q
  Segment-append p [] ys q h k = k
  Segment-append p (x ∷ []) ys q h k = (h.0, h.1, k)
  Segment-append p (x ∷ y ∷ xs) ys q h k = (h.0, h.1, Segment-append (some x) (y ∷ xs) ys q h.2 k)
