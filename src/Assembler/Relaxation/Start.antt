-- ===== src/Assembler/Relaxation/Start.antt =====
-- The first pass, and the whole of `Assembler::computeInstructionsSize`.
use lodtalk.Prelude.{ℕ, suc, ◌+◌, ◌≡◌, refl, sym, ap, arith, List, [], ◌∷◌, All}
use mathlib.Core.Path.{subst}
use lodtalk.Outcome.{ok}
use lodtalk.Assembler.Instruction.{Instruction, Node}
use lodtalk.Assembler.Sizes.{Labels, compute_max_size, label_last_position}
use lodtalk.Assembler.Layout.{compute_max_size_for_position, max_pass, compute_instructions_size}
use lodtalk.Assembler.Relaxation.Labels.{IsLaid, end_of}
use lodtalk.Assembler.Relaxation.Monotone.{Aims, IsKnown, better_size-le-max}
use lodtalk.Assembler.Relaxation.Pass.{instructions, NoGrowth}
use lodtalk.Assembler.Relaxation.Loop.{IsSettled, better_loop-IsSettled}
use lodtalk.Assembler.Relaxation.Placed.{
  IsPlaced, IsSupported, IsAssemblable, label_last_position-IsKnown, Aims-map,
  compute_max_size-IsSupported,
}

abbrev pub HasMaxSize : Node → Type 0
HasMaxSize n = compute_max_size n.instruction ≡ ok n.size

max_pass-IsLaid :
    (ns : List Node) (p : ℕ)
    → All IsSupported (instructions ns)
    → (ms : List Node) × (total : ℕ) × (max_pass ns p ≡ ok (ms, total))
      × IsLaid p ms
      × (total ≡ end_of p ms)
      × (instructions ms ≡ instructions ns)
      × All HasMaxSize ms
unfolding max_pass compute_max_size_for_position
max_pass-IsLaid [] p h = ([], p, refl, tt, refl, refl, tt)
max_pass-IsLaid (n ∷ ns) p (h, hs) =
    let (s, e) = compute_max_size-IsSupported n.instruction h in
    let (ms, total, run, laid, ends, same, sizes) = max_pass-IsLaid ns (p + s) hs in
    (
      record n { position = p; size = s; last_position = p; last_size = s } ∷ ms,
      total,
      rw (e, run),
      (refl, refl, refl, laid),
      ends,
      ap (λ is. n.instruction ∷ is) same,
      (e, sizes),
    )

HasMaxSize-NoGrowth :
    (labels : Labels) (ns : List Node)
    → All HasMaxSize ns
    → All (Aims (IsKnown labels)) (instructions ns)
    → NoGrowth labels ns
HasMaxSize-NoGrowth labels [] h k = tt
HasMaxSize-NoGrowth labels (n ∷ ns) (h, hs) (k, ks) =
    (better_size-le-max labels n n.instruction n.size k h, HasMaxSize-NoGrowth labels ns hs ks)

All-IsSupported :
    (P : ℕ → Type 0) (is : List Instruction)
    → All (λ i. IsSupported i × Aims P i) is
    → All IsSupported is
All-IsSupported P [] h = tt
All-IsSupported P (i ∷ is) (h, hs) = (h.0, All-IsSupported P is hs)

All-Aims :
    (P Q : ℕ → Type 0) (is : List Instruction)
    → ((d : ℕ) → P d → Q d)
    → All (λ i. IsSupported i × Aims P i) is
    → All (Aims Q) is
All-Aims P Q [] f h = tt
All-Aims P Q (i ∷ is) f (h, hs) = (Aims-map P Q i f h.1, All-Aims P Q is f hs)

-- For every stream without super sends whose sends have a selector index of at most 31 and at most 7
-- arguments, and whose destinations are labels in the stream, the layout ends within its fuel. The
-- result has the same instructions, each node is committed at the sum of the sizes before it, the
-- total is the sum of all sizes, and each size is the one that the labels at these positions ask for.
pub compute_instructions_size-IsSettled :
    (stream : List Node)
    → IsAssemblable (instructions stream)
    → (ns : List Node) × (total : ℕ) × (compute_instructions_size stream ≡ ok (ns, total))
      × IsSettled (instructions stream) ns total
unfolding compute_instructions_size
compute_instructions_size-IsSettled stream h =
    let (ms, max, run, laid, ends, same, sizes) =
      max_pass-IsLaid stream 0 (All-IsSupported _ (instructions stream) h) in
    let known : All (Aims (IsKnown (label_last_position ms))) (instructions ms) =
      All-Aims (IsPlaced (instructions ms)) (IsKnown (label_last_position ms)) (instructions ms)
        (label_last_position-IsKnown ms) (subst IsAssemblable (sym same) h) in
    let (ns, total, run', settled) =
      better_loop-IsSettled (suc max) ms max (omega arith) laid ends
        (HasMaxSize-NoGrowth (label_last_position ms) ms sizes known) in
    (ns, total, rw (run) run', subst (λ is. IsSettled is ns total) same settled)
