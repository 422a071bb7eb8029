-- ===== src/Memory/References/Represents.antt =====
-- The linked list of references as a list, in front of which a reference is registered.
use lodtalk.Prelude.{ℕ, ◌≡◌, refl, sym, ap, ◌∙◌, arith, List, [], ◌∷◌, none, some}
use mathlib.Core.Path.{subst}
use lodtalk.Memory.References.{
  References, assign, assign_at, or_else, no_references, register_oop_reference,
}
use lodtalk.Memory.References.Segments.{
  Links, head_or, last_or, Segment, NotIn, Distinct, last_or-last_of, Segment-prev, Segment-next,
  relink_first,
}

-- The links in both directions and the two ends are those of the list.
pub record Represents (s : References) (refs : List ℕ) : Type 0 where
  pub linked : Segment s.prev s.next none refs none
  pub starts : s.first_reference ≡ head_or none refs
  pub ends : s.last_reference ≡ last_or none refs
  pub distinct : Distinct refs

pub no_references-Represents : Represents no_references []
unfolding no_references
no_references-Represents = record { linked = tt; starts = refl; ends = refl; distinct = tt }

-- A new reference comes in front.
register-Segment :
    (prev next : Links) (r : ℕ) (xs : List ℕ)
    → NotIn r xs
    → Distinct xs
    → Segment prev next none xs none
    → Segment
        (assign_at (assign prev r none) (head_or none xs) (some r))
        (assign next r (head_or none xs))
        none
        (r ∷ xs)
        none
register-Segment prev next r [] out d h = (ground arith, ground arith, tt)
register-Segment prev next r (x ∷ xs) out d h = (
  ground arith,
  ground arith,
  relink_first (assign prev r none) (assign next r (some x)) none (some r) x xs none d.0 (
      Segment-next (assign prev r none) next r (some x) none (x ∷ xs) none out
        (Segment-prev prev next r none none (x ∷ xs) none out h)),
)

registered_end :
    (r : ℕ) (xs : List ℕ)
    → or_else (last_or none xs) (some r) (last_or none xs) ≡ last_or none (r ∷ xs)
registered_end r [] = refl
registered_end r (x ∷ xs) = rw (last_or-last_of none x xs) refl

pub register-Represents :
    (s : References) (xs : List ℕ) (r : ℕ)
    → Represents s xs
    → NotIn r xs
    → Represents (register_oop_reference s r) (r ∷ xs)
unfolding register_oop_reference
register-Represents s xs r h out = record {
  linked =
      subst
        (λ p.
          Segment (assign_at (assign s.prev r none) p (some r)) (assign s.next r p) none (r ∷ xs)
            none)
        (sym h.starts) (register-Segment s.prev s.next r xs out h.distinct h.linked);
  starts = refl;
  ends = ap (λ l. or_else l (some r) l) h.ends ∙ registered_end r xs;
  distinct = (out, h.distinct);
}
