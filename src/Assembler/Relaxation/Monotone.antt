-- ===== src/Assembler/Relaxation/Monotone.antt =====
-- The size of a node does not grow when the layout shrinks.
use lodtalk.Prelude.{
  ℕ, zero, suc, ◌+◌, ◌-◌, ◌≤◌, ◌≡◌, refl, arith, ◌⊎◌, inl, inr, Option, none, some,
}
use lodtalk.Prelude.Int.{pos, sub_ℕ, tdiv}
use lodtalk.Outcome.{Outcome, ok, ◌>>=◌, ok-injective}
use lodtalk.Assembler.Instruction.{
  Instruction, unconditional_jump, conditional_jump, push_closure, Node,
}
use lodtalk.Assembler.Sizes.{
  Labels, read_label, jump_delta_value, compute_max_size, jump_better_size, sizeof_ext_a,
  sizeof_ext_b, extend_a_value, better_size,
}
use lodtalk.Assembler.Relaxation.Sizes.{
  sizeof_ext_b_bound, jump_better_size_bound, block_ext_mono, jump_better_size_forward,
  jump_better_size_backward,
}
use lodtalk.Assembler.Relaxation.Labels.{Behind, Ahead}

-- A label as seen from a node that lies at `q` and is `s` bytes long, in two layouts.
abbrev pub Near : ℕ → ℕ → ℕ → ℕ → Option ℕ → Option ℕ → Type 0
Near q q' s s' r r' = Behind q q' r r' ⊎ Ahead (q + s) (q' + s') r r'

backward_mono : (m n : ℕ) → n ≤ m → jump_better_size (sub_ℕ 0 n) ≤ jump_better_size (sub_ℕ 0 m)
backward_mono m zero h = unfold jump_better_size in omega arith
backward_mono zero (suc n) h = absurd (omega arith)
backward_mono (suc m) (suc n) h = ground (arith, jump_better_size_backward m n (omega arith))

delta_back : (t e : ℕ) → t ≤ e → sub_ℕ t e ≡ sub_ℕ 0 (e - t)
delta_back t e h = ground arith

delta_front : (t e : ℕ) → e ≤ t → sub_ℕ t e ≡ pos (t - e)
delta_front t e h = ground arith

module _ (q q' s s' : ℕ) (le : s' ≤ s) where
  jump_mono :
      (t t' : ℕ)
      → Near q q' s s' (some t) (some t')
      → jump_better_size (jump_delta_value t' q' s') ≤ jump_better_size (jump_delta_value t q s)
  jump_mono t t' (inl (b, b', c)) =
      rw (delta_back t (q + s) (omega arith), delta_back t' (q' + s') (omega arith))
        (backward_mono (q + s - t) (q' + s' - t') (omega arith))
  jump_mono t t' (inr (b, b', c)) =
      rw (delta_front t (q + s) b, delta_front t' (q' + s') b')
        (jump_better_size_forward (t - (q + s)) (t' - (q' + s')) (omega arith))

  block_mono :
      (t t' : ℕ)
      → Near q q' s s' (some t) (some t')
      → sizeof_ext_b (tdiv (jump_delta_value t' q' s') (pos 256))
        ≤ sizeof_ext_b (tdiv (jump_delta_value t q s) (pos 256))
  block_mono t t' (inl (b, b', c)) =
      block_ext_mono (jump_delta_value t q s) (jump_delta_value t' q' s') (ground arith)
  block_mono t t' (inr (b, b', c)) =
      block_ext_mono (jump_delta_value t q s) (jump_delta_value t' q' s') (ground arith)

-- Committed fields of a node.
abbrev pub Sits : ℕ → Node → Type 0
Sits q n = (n.last_position ≡ q) × (n.last_size ≡ n.size)

-- Where the old size is computed, so is the new one, and it is no larger.
abbrev pub Follows : ℕ → Outcome ℕ → Type 0
Follows a r = (b : ℕ) × (r ≡ ok b) × (b ≤ a)

module _ (q q' s s' : ℕ) (le : s' ≤ s) where
  jump_case :
      (r r' : Option ℕ) (a : ℕ)
      → Near q q' s s' r r'
      → (read_label r >>= λ p. ok (jump_better_size (jump_delta_value p q s))) ≡ ok a
      → Follows a (read_label r' >>= λ p. ok (jump_better_size (jump_delta_value p q' s')))
  jump_case none r' a near e = cc
  jump_case (some t) none a (inl b) e = absurd b
  jump_case (some t) none a (inr b) e = absurd b
  jump_case (some t) (some t') a near e =
      (_, refl, omega (arith, ok-injective e, jump_mono q q' s s' le t t' near))

  closure_case :
      (x : ℕ) (r r' : Option ℕ) (a : ℕ)
      → Near q q' s s' r r'
      → (read_label r >>= λ p. ok (x + sizeof_ext_b (tdiv (jump_delta_value p q s) (pos 256))))
        ≡ ok a
      → Follows a
          (read_label r' >>= λ p. ok (x + sizeof_ext_b (tdiv (jump_delta_value p q' s') (pos 256))))
  closure_case x none r' a near e = cc
  closure_case x (some t) none a (inl b) e = absurd b
  closure_case x (some t) none a (inr b) e = absurd b
  closure_case x (some t) (some t') a near e =
      (_, refl, omega (arith, ok-injective e, block_mono q q' s s' le t t' near))

module _ (labels labels' : Labels) (k l : Node) (q q' : ℕ) (sits : Sits q k) (sits' : Sits q' l)
    (le : l.size ≤ k.size)
    (near : (id : ℕ) → Near q q' k.size l.size (labels id) (labels' id)) where
  pub better_size_mono :
      (i : Instruction) (a : ℕ)
      → better_size labels k i ≡ ok a
      → Follows a (better_size labels' l i)
  unfolding better_size
  better_size_mono (unconditional_jump d) a e =
      rw (sits'.0, sits'.1)
        (jump_case q q' k.size l.size le _ _ a (near d) (rw (sits.0, sits.1) at e))
  better_size_mono (conditional_jump d c) a e =
      rw (sits'.0, sits'.1)
        (jump_case q q' k.size l.size le _ _ a (near d) (rw (sits.0, sits.1) at e))
  better_size_mono (push_closure c n d x) a e = rw sits'.0 (
      closure_case q q' k.size l.size le (3 + sizeof_ext_a (extend_a_value c n)) _ _ a (near d)
        (rw sits.0 at e))
  better_size_mono _ a e = (a, e, omega arith)

-- What a predicate says of the labels that an instruction names.
abbrev pub Aims : (ℕ → Type 0) → Instruction → Type 0
Aims P (unconditional_jump d) = P d
Aims P (conditional_jump d c) = P d
Aims P (push_closure c n d x) = P d
Aims P _ = Unit

-- The label has a position.
abbrev pub IsKnown : Labels → ℕ → Type 0
IsKnown labels d = (t : ℕ) × (labels d ≡ some t)

-- Whatever the layout, a size is at most the maximal size.
pub better_size-le-max :
    (labels : Labels) (n : Node) (i : Instruction) (a : ℕ)
    → Aims (IsKnown labels) i
    → compute_max_size i ≡ ok a
    → Follows a (better_size labels n i)
unfolding better_size compute_max_size
better_size-le-max labels n (unconditional_jump d) a (t, k) e = rw k (
  _,
  refl,
  omega (
    arith,
    ok-injective e,
    jump_better_size_bound (jump_delta_value t n.last_position n.last_size),
  ),
)
better_size-le-max labels n (conditional_jump d c) a (t, k) e = rw k (
  _,
  refl,
  omega (
    arith,
    ok-injective e,
    jump_better_size_bound (jump_delta_value t n.last_position n.last_size),
  ),
)
better_size-le-max labels n (push_closure c m d x) a (t, k) e = rw k (
  _,
  refl,
  omega (
    arith,
    ok-injective e,
    sizeof_ext_b_bound (tdiv (jump_delta_value t n.last_position n.size) (pos 256)),
  ),
)
better_size-le-max labels n _ a k e = (a, e, omega arith)
