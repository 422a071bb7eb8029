-- ===== src/Memory/References/Live.antt =====
-- The references that are registered at a time, and the loop over them.
use lodtalk.Prelude.{
  ℕ, zero, suc, ◌<◌, ◌≡◌, refl, ap, ◌∙◌, arith, List, [], ◌∷◌, ◌++◌, Option, none, some, length,
}
use lodtalk.Memory.References.{
  References, no_references, register_oop_reference, unregister_oop_reference, visit_references,
}
use lodtalk.Memory.References.Segments.{head_or, Segment, NotIn}
use lodtalk.Memory.References.Represents.{Represents, no_references-Represents, register-Represents}
use lodtalk.Memory.References.Removal.{unregister-Represents}

-- The loop visits a stretch in its order.
visit-Segment :
    (s : References) (p : Option ℕ) (xs : List ℕ) (fuel : ℕ)
    → Segment s.prev s.next p xs none
    → length xs < fuel
    → visit_references fuel s (head_or none xs) ≡ some xs
unfolding visit_references
visit-Segment s p xs zero h enough = absurd (omega arith)
visit-Segment s p [] (suc fuel) h enough = refl
visit-Segment s p (x ∷ xs) (suc fuel) h enough =
    rw (h.1, visit-Segment s (some x) xs fuel h.2 (omega arith)) refl

-- The references of a virtual machine that has registered and unregistered some, each registered
-- at most once at a time, and the list of those that are registered, the latest first.
pub data Live : References → List ℕ → Type 0 where
  start : Live no_references []
  register :
      {s : References} {refs : List ℕ} (r : ℕ)
      → Live s refs
      → NotIn r refs
      → Live (register_oop_reference s r) (r ∷ refs)
  unregister :
      {s : References} (before : List ℕ) (r : ℕ) (after : List ℕ)
      → Live s (before ++ r ∷ after)
      → Live (unregister_oop_reference s r) (before ++ after)

pub Live-Represents : {s : References} {refs : List ℕ} → Live s refs → Represents s refs
Live-Represents start = no_references-Represents
Live-Represents (register {s} {refs} r l out) = register-Represents s refs r (Live-Represents l) out
Live-Represents (unregister {s} before r after l) =
    unregister-Represents s before r after (Live-Represents l)

-- After any calls of registerOopReference and unregisterOopReference, where a reference is
-- registered only while it is not, and unregistered only while it is, the doubly linked list
-- consists of the references that are registered now, the latest first: its links in both directions
-- and its two ends are those of that list, and the loop over the roots ends and visits each of them
-- once, in this order.
pub Live-visit :
    (s : References) (refs : List ℕ) (fuel : ℕ)
    → Live s refs
    → length refs < fuel
    → Represents s refs × (visit_references fuel s s.first_reference ≡ some refs)
Live-visit s refs fuel l enough =
    let r = Live-Represents l in
    (r, ap (visit_references fuel s) r.starts ∙ visit-Segment s none refs fuel r.linked enough)
