-- ===== src/Assembler/Relaxation/Loop.antt =====
-- The first pass, and the loop that ends when a pass does not shrink the code.
use lodtalk.Prelude.{
  ℕ, zero, suc, ◌+◌, ◌-◌, ◌≤◌, ◌<◌, ◌≡◌, refl, sym, ◌∙◌, arith, inl, inr, List, [], ◌∷◌, map, ltb,
  Bool-cases, ltb→lt,
}
use mathlib.Core.Path.{subst}
use lodtalk.Outcome.{ok}
use lodtalk.Assembler.Instruction.{Instruction, Node}
use lodtalk.Assembler.Sizes.{label_last_position}
use lodtalk.Assembler.Layout.{commit_size, better_loop}
use lodtalk.Assembler.Relaxation.Labels.{IsLaid, end_of, Shrinks}
use lodtalk.Assembler.Relaxation.Pass.{instructions, Steps, NoGrowth, pass-Passed, settle-NoGrowth}

-- A layout that lies from 0 on, whose sizes are the ones that its own labels ask for.
pub record IsSettled (stream : List Instruction) (ns : List Node) (total : ℕ) : Type 0 where
  pub same : instructions ns ≡ stream
  pub laid : IsLaid 0 ns
  pub ends : total ≡ end_of 0 ns
  pub fixed : Steps (label_last_position ns) ns ns

-- A shift of the start is a shift of the end, at least.
Shrinks-end :
    (ks ls : List Node) (p q d : ℕ) → Shrinks ks ls → q + d ≤ p → end_of q ls + d ≤ end_of p ks
Shrinks-end [] [] p q d h le = le
Shrinks-end [] (l ∷ ls) p q d h le = absurd h
Shrinks-end (k ∷ ks) [] p q d h le = absurd h
Shrinks-end (k ∷ ks) (l ∷ ls) p q d h le =
    Shrinks-end ks ls (p + k.size) (q + l.size) d h.2 (omega (arith, h.1))

Shrinks-instructions : (ks ls : List Node) → Shrinks ks ls → instructions ls ≡ instructions ks
Shrinks-instructions [] [] h = refl
Shrinks-instructions [] (l ∷ ls) h = absurd h
Shrinks-instructions (k ∷ ks) [] h = absurd h
Shrinks-instructions (k ∷ ks) (l ∷ ls) h = λ i. sym h.0 i ∷ Shrinks-instructions ks ls h.2 i

Node-eq :
    (k l : Node)
    → k.instruction ≡ l.instruction
    → k.position ≡ l.position
    → k.size ≡ l.size
    → k.last_position ≡ l.last_position
    → k.last_size ≡ l.last_size
    → k ≡ l
Node-eq k l a b c d e = λ i. record {
  instruction = a i;
  position = b i;
  size = c i;
  last_position = d i;
  last_size = e i;
}

-- A layout that shrinks and ends no earlier is the same layout.
Shrinks-eq :
    (ks ls : List Node) (p q : ℕ)
    → p ≡ q
    → IsLaid p ks
    → IsLaid q ls
    → Shrinks ks ls
    → end_of p ks ≤ end_of q ls
    → ls ≡ ks
Shrinks-eq [] [] p q e hk hl sh le = refl
Shrinks-eq [] (l ∷ ls) p q e hk hl sh le = absurd sh
Shrinks-eq (k ∷ ks) [] p q e hk hl sh le = absurd sh
Shrinks-eq (k ∷ ks) (l ∷ ls) p q e (pk, lk, zk, hk) (pl, ll, zl, hl) (i, s, sh) le =
    let size : l.size ≡ k.size =
      omega
        (arith, Shrinks-end ks ls (p + k.size) (q + l.size) (k.size - l.size) sh (omega arith)) in
    let rest : ls ≡ ks = Shrinks-eq ks ls (p + k.size) (q + l.size) (omega arith) hk hl sh le in
    let node : l ≡ k = Node-eq l k (sym i) (omega arith) size (omega arith) (omega arith) in
    λ j. node j ∷ rest j

IsSettled-Shrinks :
    (ls ks ms : List Node) (end : ℕ)
    → Shrinks ls ks
    → IsSettled (instructions ks) ms end
    → IsSettled (instructions ls) ms end
IsSettled-Shrinks ls ks ms end sh h = record {
  same = h.same ∙ Shrinks-instructions ls ks sh;
  laid = h.laid;
  ends = h.ends;
  fixed = h.fixed;
}

-- The last pass changes nothing.
stop-IsSettled :
    (ls ms : List Node) (total end : ℕ)
    → IsLaid 0 ls
    → IsLaid 0 ms
    → total ≡ end_of 0 ls
    → end ≡ end_of 0 ms
    → Shrinks ls ms
    → Steps (label_last_position ls) ls ms
    → total ≤ end
    → IsSettled (instructions ms) ms end
stop-IsSettled ls ms total end laid laid' e e' shrinks steps le = record {
  same = refl;
  laid = laid';
  ends = e';
  fixed =
      subst (λ x. Steps (label_last_position x) x ms)
        (sym (Shrinks-eq ls ms 0 0 refl laid laid' shrinks (omega arith))) steps;
}

-- The loop ends by its test before the fuel does, and its result is settled.
pub better_loop-IsSettled :
    (fuel : ℕ) (ls : List Node) (total : ℕ)
    → total < fuel
    → IsLaid 0 ls
    → total ≡ end_of 0 ls
    → NoGrowth (label_last_position ls) ls
    → (ms : List Node) × (end : ℕ) × (better_loop fuel ls total ≡ ok (ms, end))
      × IsSettled (instructions ls) ms end
unfolding better_loop
better_loop-IsSettled zero ls total lt laid e still = absurd (omega arith)
better_loop-IsSettled (suc fuel) ls total lt laid e still =
    let (raw, end, passed) = pass-Passed (label_last_position ls) ls 0 still in
    let (run, laid', e', steps, shrinks) = passed in
    elim (Bool-cases (ltb end total)) [
      | inl less ↦
          let (ms, last, run', settled) =
            better_loop-IsSettled fuel (map commit_size raw) end
              (omega (arith, ltb→lt end total less)) laid' e'
              (settle-NoGrowth ls (map commit_size raw) laid laid' shrinks steps) in
          (
            ms,
            last,
            rw (run, less) run',
            IsSettled-Shrinks ls (map commit_size raw) ms last shrinks settled,
          )
      | inr stop ↦ (
        map commit_size raw,
        end,
        rw (run, stop),
        IsSettled-Shrinks ls (map commit_size raw) (map commit_size raw) end shrinks (
            stop-IsSettled ls (map commit_size raw) total end laid laid' e e' shrinks steps
              (ground arith)),
      )
    ]
