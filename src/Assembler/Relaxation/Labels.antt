-- ===== src/Assembler/Relaxation/Labels.antt =====
-- Layouts, and how far a node is from a label when the nodes of a layout shrink.
use lodtalk.Prelude.{
  ℕ, ◌+◌, ◌≤◌, ◌≡◌, refl, arith, ◌⊎◌, inl, inr, Option, none, some, List, [], ◌∷◌, ◌==◌, Bool-cases,
}
use lodtalk.Assembler.Instruction.{Instruction, label, Node}
use lodtalk.Assembler.Sizes.{mark, last_position_from}

-- Committed nodes that lie one behind the other from position `p` on.
abbrev pub IsLaid : ℕ → List Node → Type 0
IsLaid p [] = Unit
IsLaid p (n ∷ ns) =
    (n.position ≡ p) × (n.last_position ≡ p) × (n.last_size ≡ n.size) × IsLaid (p + n.size) ns

-- The end of a layout that begins at `p`.
abbrev pub end_of : ℕ → List Node → ℕ
end_of p [] = p
end_of p (n ∷ ns) = end_of (p + n.size) ns

-- The same instructions, none of them longer.
abbrev pub Shrinks : List Node → List Node → Type 0
Shrinks [] [] = Unit
Shrinks (k ∷ ks) (l ∷ ls) = (k.instruction ≡ l.instruction) × (l.size ≤ k.size) × Shrinks ks ls
Shrinks _ _ = ⊥

-- A label behind `q` in the old layout and behind `q'` in the new one, which is not farther there.
abbrev pub Behind : ℕ → ℕ → Option ℕ → Option ℕ → Type 0
Behind q q' none none = Unit
Behind q q' (some t) (some t') = (t ≤ q) × (t' ≤ q') × (q' + t ≤ q + t')
Behind _ _ _ _ = ⊥

abbrev pub Ahead : ℕ → ℕ → Option ℕ → Option ℕ → Type 0
Ahead q q' (some t) (some t') = (q ≤ t) × (q' ≤ t') × (t' + q ≤ t + q')
Ahead _ _ _ _ = ⊥

pub Behind-mark :
    (i : Instruction) (id q q' : ℕ) (a a' : Option ℕ)
    → Behind q q' a a'
    → Behind q q' (mark i id q a) (mark i id q' a')
Behind-mark (label j) id q q' none none b = ground arith
Behind-mark (label j) id q q' none (some t') b = absurd b
Behind-mark (label j) id q q' (some t) none b = absurd b
Behind-mark (label j) id q q' (some t) (some t') b = ground arith
Behind-mark _ id q q' a a' b = b

pub Behind-grow :
    (q q' s s' : ℕ) (a a' : Option ℕ) → s' ≤ s → Behind q q' a a' → Behind (q + s) (q' + s') a a'
Behind-grow q q' s s' none none h b = tt
Behind-grow q q' s s' none (some t') h b = absurd b
Behind-grow q q' s s' (some t) none h b = absurd b
Behind-grow q q' s s' (some t) (some t') h b = omega arith

-- The rest of a stream, at `q` and `q'`, either has the label, or changes nothing.
abbrev pub Finds : ℕ → ℕ → Option ℕ → Option ℕ → Option ℕ → Option ℕ → Type 0
Finds q q' a a' r r' = Ahead q q' r r' ⊎ ((r ≡ a) × (r' ≡ a'))

Ahead-weaken :
    (q q' s s' : ℕ) (r r' : Option ℕ) → s' ≤ s → Ahead (q + s) (q' + s') r r' → Ahead q q' r r'
Ahead-weaken q q' s s' none r' h b = absurd b
Ahead-weaken q q' s s' (some t) none h b = absurd b
Ahead-weaken q q' s s' (some t) (some t') h b = omega arith

Ahead-here : (q q' : ℕ) (r r' : Option ℕ) → r ≡ some q → r' ≡ some q' → Ahead q q' r r'
Ahead-here q q' r r' e e' = rw (e, e') (omega arith)

-- One node in front of the rest.
Finds-mark :
    (i : Instruction) (id q q' s s' : ℕ) (a a' : Option ℕ) {r r' : Option ℕ}
    → s' ≤ s
    → Finds (q + s) (q' + s') (mark i id q a) (mark i id q' a') r r'
    → Finds q q' a a' r r'
Finds-mark (label j) id q q' s s' a a' {r} {r'} h (inl f) = inl (Ahead-weaken q q' s s' r r' h f)
Finds-mark (label j) id q q' s s' a a' {r} {r'} h (inr (e, e')) = elim (Bool-cases (j == id)) [
  | inl t ↦ inl (Ahead-here q q' r r' (rw t at e) (rw t at e'))
  | inr f ↦ inr (rw f at e, rw f at e')
]
Finds-mark _ id q q' s s' a a' {r} {r'} h (inl f) = inl (Ahead-weaken q q' s s' r r' h f)
Finds-mark _ id q q' s s' a a' h (inr e) = inr e

pub from-Finds :
    (ks ls : List Node) (id q q' : ℕ) (a a' : Option ℕ)
    → IsLaid q ks
    → IsLaid q' ls
    → Shrinks ks ls
    → Finds q q' a a' (last_position_from ks id a) (last_position_from ls id a')
unfolding last_position_from
from-Finds [] [] id q q' a a' hk hl sh = inr (refl, refl)
from-Finds [] (l ∷ ls) id q q' a a' hk hl sh = absurd sh
from-Finds (k ∷ ks) [] id q q' a a' hk hl sh = absurd sh
from-Finds (k ∷ ks) (l ∷ ls) id q q' a a' (_, pk, _, hk) (_, pl, _, hl) (e, le, sh) =
    rw (pk, pl, ← e)
      (Finds-mark k.instruction id q q' k.size l.size a a' le
        (from-Finds ks ls id (q + k.size) (q' + l.size) _ _ hk hl sh))
