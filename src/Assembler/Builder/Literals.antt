-- ===== src/Assembler/Builder/Literals.antt =====
-- The literal table of `Assembler` in vm/MethodBuilder.cpp: `addLiteral` and `addLiteralAlways`.
use lodtalk.Prelude.{
  ℕ, suc, ◌+◌, ◌≡◌, ◌≢◌, ◌⊎◌, refl, ◌∙◌, ap, arith, inl, inr, Bool-cases, Option, none, some, List,
  [], ◌∷◌, ◌++◌, ◌==◌, ==_iff, length, get_elem?, All,
}
use lodtalk.Assembler.Builder.{Assembler, find_literal, found_or_new, add_literal}

-- No literal occurs twice.
abbrev pub Distinct : List ℕ → Type 0
Distinct [] = Unit
Distinct (x ∷ xs) = All (λ y. x ≢ y) xs × Distinct xs

abbrev pub IsPrefix : List ℕ → List ℕ → Type 0
IsPrefix xs ys = (zs : List ℕ) × (ys ≡ xs ++ zs)

-- What `addLiteral` promises: the index of the literal in a table that only grew at its end, no second
-- copy of any literal, and nothing else changed.
abbrev pub IsAdded : ℕ → Assembler → ℕ × Assembler → Type 0
IsAdded v a (i, b) =
    (get_elem? b.literals i ≡ some v)
    × IsPrefix a.literals b.literals
    × (Distinct a.literals → Distinct b.literals)
    × (b.instruction_stream ≡ a.instruction_stream)

abbrev Found : List ℕ → ℕ → ℕ → Option ℕ → Type 0
Found xs v i r =
    ((k : ℕ) × (r ≡ some (i + k)) × (get_elem? xs k ≡ some v)) ⊎ ((r ≡ none) × All (λ y. y ≢ v) xs)

later-Found :
    (x : ℕ) (xs : List ℕ) (v i : ℕ) {r : Option ℕ}
    → x ≢ v
    → Found xs v (suc i) r
    → Found (x ∷ xs) v i r
later-Found x xs v i differs (inl (k, found, at)) =
    let e : suc i + k ≡ i + suc k = omega arith in inl (suc k, found ∙ ap some e, at)
later-Found x xs v i differs (inr (missing, others)) = inr (missing, (differs, others))

find_literal-Found : (xs : List ℕ) (v i : ℕ) → Found xs v i (find_literal xs v i)
unfolding find_literal
find_literal-Found [] v i = inr (refl, tt)
find_literal-Found (x ∷ xs) v i = elim (Bool-cases (x == v)) [
  | inl e ↦ rw e (inl (0, ap some (omega arith), ap some ((==_iff x v).0 e)))
  | inr e ↦
      let differs : x ≢ v = λ same. cc ((==_iff x v).1 same) in
      rw e (later-Found x xs v i differs (find_literal-Found xs v (suc i)))
]

pub append-prefix : (xs : List ℕ) → IsPrefix xs xs
append-prefix xs = ([], same xs)
  where
    same : (xs : List ℕ) → xs ≡ xs ++ []
    same [] = refl
    same (x ∷ xs) = ap (λ ys. x ∷ ys) (same xs)

get_elem?-end : (xs : List ℕ) (v : ℕ) → get_elem? (xs ++ v ∷ []) (length xs) ≡ some v
get_elem?-end [] v = refl
get_elem?-end (x ∷ xs) v = get_elem?-end xs v

All-end : (x v : ℕ) (xs : List ℕ) → All (λ y. x ≢ y) xs → x ≢ v → All (λ y. x ≢ y) (xs ++ v ∷ [])
All-end x v [] h d = (d, tt)
All-end x v (y ∷ ys) (h, hs) d = (h, All-end x v ys hs d)

Distinct-end : (xs : List ℕ) (v : ℕ) → All (λ y. y ≢ v) xs → Distinct xs → Distinct (xs ++ v ∷ [])
Distinct-end [] v h d = (tt, tt)
Distinct-end (x ∷ xs) v (h, hs) (d, ds) = (All-end x v xs d h, Distinct-end xs v hs ds)

found_or_new-IsAdded :
    (r : Option ℕ) (v : ℕ) (a : Assembler)
    → Found a.literals v 0 r
    → IsAdded v a (found_or_new r v a)
found_or_new-IsAdded r v a (inl (k, found, at)) =
    rw found (rw (index k) at, append-prefix a.literals, λ d. d, refl)
  where
    index : (k : ℕ) → 0 + k ≡ k
    index k = omega arith
found_or_new-IsAdded r v a (inr (missing, others)) =
    rw missing (get_elem?-end a.literals v, (v ∷ [], refl), Distinct-end a.literals v others, refl)

pub add_literal-IsAdded : (v : ℕ) (a : Assembler) → IsAdded v a (add_literal v a)
unfolding add_literal
add_literal-IsAdded v a =
    found_or_new-IsAdded (find_literal a.literals v 0) v a (find_literal-Found a.literals v 0)

-- The literal at the returned index, in a table of distinct literals that grew at its end at most, next
-- to the same stream.
abbrev pub IsEntered : ℕ → Assembler → ℕ × Assembler → Type 0
IsEntered v a (i, b) =
    (get_elem? b.literals i ≡ some v)
    × IsPrefix a.literals b.literals
    × Distinct b.literals
    × (b.instruction_stream ≡ a.instruction_stream)

-- On a table in which no literal stands twice, `addLiteral` returns the index at which the literal stands
-- afterwards. The literals from before keep their indices, since the table grows at its end at most;
-- still no literal stands twice; and the instruction stream is the same.
pub add_literal-IsEntered :
    (v : ℕ) (a : Assembler) → Distinct a.literals → IsEntered v a (add_literal v a)
add_literal-IsEntered v a d =
    let (at, grows, distinct, same) = add_literal-IsAdded v a in (at, grows, distinct d, same)
