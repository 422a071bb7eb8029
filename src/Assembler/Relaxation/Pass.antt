-- ===== src/Assembler/Relaxation/Pass.antt =====
-- One pass of the layout: it succeeds on nodes that cannot grow, and gives a layout that shrinks.
use lodtalk.Prelude.{ℕ, ◌+◌, ◌≤◌, ◌≡◌, refl, inl, inr, Option, none, List, [], ◌∷◌, map, All}
use mathlib.Core.Path.{subst}
use lodtalk.Outcome.{ok}
use lodtalk.Assembler.Instruction.{Instruction, Node}
use lodtalk.Assembler.Sizes.{
  Labels, mark, better_size, compute_better_size, last_position_from, label_last_position,
}
use lodtalk.Assembler.Layout.{commit_size, better_pass, compute_better_size_for_position}
use lodtalk.Assembler.Relaxation.Labels.{
  IsLaid, end_of, Shrinks, Behind, Behind-mark, Behind-grow, from-Finds,
}
use lodtalk.Assembler.Relaxation.Monotone.{Follows, Near, better_size_mono}

abbrev pub instructions : List Node → List Instruction
instructions = map λ n. n.instruction

-- Each size of the second layout is the one that the first layout asks for.
abbrev pub Steps : Labels → List Node → List Node → Type 0
Steps labels [] [] = Unit
Steps labels (k ∷ ks) (l ∷ ls) =
    (k.instruction ≡ l.instruction)
    × (better_size labels k k.instruction ≡ ok l.size)
    × Steps labels ks ls
Steps labels _ _ = ⊥

-- No node grows under these labels.
abbrev pub NoGrowth : Labels → List Node → Type 0
NoGrowth labels = All λ n. Follows n.size (better_size labels n n.instruction)

-- The result of a pass over `ls` from position `p`.
abbrev pub Passed : Labels → List Node → ℕ → List Node → ℕ → Type 0
Passed labels ls p ms total =
    (better_pass labels ls p ≡ ok (ms, total))
    × IsLaid p (map commit_size ms)
    × (total ≡ end_of p (map commit_size ms))
    × Steps labels ls (map commit_size ms)
    × Shrinks ls (map commit_size ms)

abbrev sized : Node → ℕ → ℕ → Node
sized n p s = record n { position = p; size = s }

pass_step :
    (labels : Labels) (n : Node) (ns : List Node) (p s : ℕ) {ms : List Node} {total : ℕ}
    → better_size labels n n.instruction ≡ ok s
    → better_pass labels ns (p + s) ≡ ok (ms, total)
    → better_pass labels (n ∷ ns) p ≡ ok (sized n p s ∷ ms, total)
unfolding better_pass compute_better_size_for_position compute_better_size
pass_step labels n ns p s e f = rw (e, f)

pub pass-Passed :
    (labels : Labels) (ls : List Node) (p : ℕ)
    → NoGrowth labels ls
    → (ms : List Node) × (total : ℕ) × Passed labels ls p ms total
unfolding better_pass
pass-Passed labels [] p h = ([], p, (refl, tt, refl, tt, tt))
pass-Passed labels (l ∷ ls) p ((s, e, le), h) =
    let (ms, total, passed) = pass-Passed labels ls (p + s) h in
    let (run, laid, last, steps, shrinks) = passed in
    (
      sized l p s ∷ ms,
      total,
      (
        pass_step labels l ls p s e run,
        (refl, refl, refl, laid),
        last,
        (refl, e, steps),
        (refl, le, shrinks),
      ),
    )

-- Where the labels are, seen from the first node of two layouts.
from-Near :
    (k l : Node) (ks ls : List Node) (id q q' : ℕ) (a a' : Option ℕ)
    → IsLaid q (k ∷ ks)
    → IsLaid q' (l ∷ ls)
    → Shrinks (k ∷ ks) (l ∷ ls)
    → Behind q q' a a'
    → Near q q' k.size l.size (last_position_from (k ∷ ks) id a) (last_position_from (l ∷ ls) id a')
unfolding last_position_from
from-Near k l ks ls id q q' a a' (_, pk, _, hk) (_, pl, _, hl) (e, le, sh) b =
    rw (pk, pl, ← e)
      (elim (from-Finds ks ls id (q + k.size) (q' + l.size) _ _ hk hl sh) [
        | inl ahead ↦ inr ahead
        | inr (r, r') ↦ inl (rw (r, r') (Behind-mark k.instruction id q q' a a' b))
      ])

Behind-next :
    (k l : Node) (id q q' : ℕ) (a a' : Option ℕ)
    → k.last_position ≡ q
    → l.last_position ≡ q'
    → k.instruction ≡ l.instruction
    → l.size ≤ k.size
    → Behind q q' a a'
    → Behind
        (q + k.size)
        (q' + l.size)
        (mark k.instruction id k.last_position a)
        (mark l.instruction id l.last_position a')
Behind-next k l id q q' a a' pk pl e le b =
    rw (pk, pl, ← e)
      (Behind-grow q q' k.size l.size _ _ le (Behind-mark k.instruction id q q' a a' b))

-- After a pass that shrinks the layout, the next pass cannot grow it.
pub Shrinks-NoGrowth :
    (labels labels' : Labels) (ks ls : List Node) (q q' : ℕ) (a a' : ℕ → Option ℕ)
    → IsLaid q ks
    → IsLaid q' ls
    → Shrinks ks ls
    → Steps labels ks ls
    → ((id : ℕ) → Behind q q' (a id) (a' id))
    → ((id : ℕ) → labels id ≡ last_position_from ks id (a id))
    → ((id : ℕ) → labels' id ≡ last_position_from ls id (a' id))
    → NoGrowth labels' ls
unfolding last_position_from
Shrinks-NoGrowth labels labels' [] [] q q' a a' hk hl sh st b f f' = tt
Shrinks-NoGrowth labels labels' [] (l ∷ ls) q q' a a' hk hl sh st b f f' = absurd sh
Shrinks-NoGrowth labels labels' (k ∷ ks) [] q q' a a' hk hl sh st b f f' = absurd sh
Shrinks-NoGrowth labels labels' (k ∷ ks) (l ∷ ls) q q' a a' hk hl sh st b f f' =
    let near = λ (id : ℕ). from-Near k l ks ls id q q' (a id) (a' id) hk hl sh (b id) in
    (
      subst (λ i. Follows l.size (better_size labels' l i)) sh.0
          (better_size_mono labels labels' k l q q' (hk.1, hk.2) (hl.1, hl.2) sh.1
            (λ id. rw (f id, f' id) (near id)) k.instruction l.size st.1),
      Shrinks-NoGrowth labels labels' ks ls (q + k.size) (q' + l.size)
          (λ id. mark k.instruction id k.last_position (a id))
          (λ id. mark l.instruction id l.last_position (a' id)) hk.3 hl.3 sh.2 st.2
          (λ id. Behind-next k l id q q' (a id) (a' id) hk.1 hl.1 sh.0 sh.1 (b id)) f f',
    )

-- The committed labels of a layout are those that the next layout sees.
pub settle-NoGrowth :
    (ks ls : List Node)
    → IsLaid 0 ks
    → IsLaid 0 ls
    → Shrinks ks ls
    → Steps (label_last_position ks) ks ls
    → NoGrowth (label_last_position ls) ls
unfolding label_last_position
settle-NoGrowth ks ls hk hl sh st =
    Shrinks-NoGrowth (label_last_position ks) (label_last_position ls) ks ls 0 0 (λ _. none)
      (λ _. none) hk hl sh st (λ _. tt) (λ _. refl) (λ _. refl)
