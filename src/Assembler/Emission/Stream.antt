-- ===== src/Assembler/Emission/Stream.antt =====
-- The encoding loop over a settled layout.
use lodtalk.Prelude.{
  ℕ, ◌+◌, ◌≤◌, ◌≡◌, refl, sym, ◌∙◌, arith, true, false, Option, none, some, List, [], ◌∷◌, ◌++◌,
  ltb, if◌then◌else◌, length, length-append,
}
use lodtalk.Prelude.Int.{pos, tdiv}
use mathlib.Core.Path.{subst}
use lodtalk.Outcome.{
  Outcome, ok, abort, out_of_fuel, Abort, unimplemented, memory_corruption, ◌>>=◌, ok-injective,
}
use lodtalk.Assembler.Instruction.{
  Instruction, unconditional_jump, conditional_jump, push_closure, Node,
}
use lodtalk.Assembler.Sizes.{
  Labels, read_label, mark, better_size, jump_better_size, jump_delta_value, sizeof_ext_a,
  sizeof_ext_b, extend_a_value, last_position_from, label_last_position,
}
use lodtalk.Assembler.Encode.{
  encode_as, encode, encode_jump, encode_closure, position_from, label_position,
}
use lodtalk.Assembler.Generate.{encode_stream}
use lodtalk.Assembler.Relaxation.Labels.{IsLaid, end_of}
use lodtalk.Assembler.Relaxation.Pass.{Steps}
use lodtalk.Assembler.Emission.Lengths.{
  HasLength, encode_jump-HasLength, encode_closure-HasLength, encode_plain-HasLength,
}

-- A table of current positions agrees with the committed one.
abbrev pub Agrees : (ℕ → ℕ) → Labels → Type 0
Agrees positions labels = (d t : ℕ) → labels d ≡ some t → positions d ≡ t

-- In a committed layout the two positions of a label are one.
position_from-laid :
    (ns : List Node) (p d : ℕ) (a : Option ℕ)
    → IsLaid p ns
    → position_from ns d a ≡ last_position_from ns d a
unfolding position_from last_position_from
position_from-laid [] p d a h = refl
position_from-laid (n ∷ ns) p d a (hp, hl, _, h) =
    rw (hp, hl) (position_from-laid ns (p + n.size) d (mark n.instruction d p a) h)

pub label_position-Agrees :
    (ns : List Node) → IsLaid 0 ns → Agrees (label_position ns) (label_last_position ns)
unfolding label_position label_last_position
label_position-Agrees ns h d t e = rw (position_from-laid ns 0 d none h, e)

module _ (positions : ℕ → ℕ) (labels : Labels) (agrees : Agrees positions labels) where
  jump-HasLength :
      (short long p s size d : ℕ) (r : Option ℕ)
      → labels d ≡ r
      → (read_label r >>= λ t. ok (jump_better_size (jump_delta_value t p s))) ≡ ok size
      → HasLength size (encode_jump short long (jump_delta_value (positions d) p s))
  jump-HasLength short long p s size d none q e = cc
  jump-HasLength short long p s size d (some t) q e = rw (agrees d t q) (
      subst (λ x. HasLength x (encode_jump short long (jump_delta_value t p s))) (ok-injective e)
        (encode_jump-HasLength short long (jump_delta_value t p s)))

  closure-HasLength :
      (c a x p s size : ℕ) (r : Option ℕ)
      → (read_label r >>= λ t. ok (
          3
          + sizeof_ext_a (extend_a_value c a)
          + sizeof_ext_b (tdiv (jump_delta_value t p s) (pos 256))))
        ≡ ok size
      → HasLength size (read_label r >>= λ t. encode_closure c a x (jump_delta_value t p s))
  closure-HasLength c a x p s size none e = cc
  closure-HasLength c a x p s size (some t) e =
      subst (λ y. HasLength y (encode_closure c a x (jump_delta_value t p s))) (ok-injective e)
        (encode_closure-HasLength c a x (jump_delta_value t p s))

  encode_as-HasLength :
      (n : Node) (i : Instruction) (size : ℕ)
      → n.position ≡ n.last_position
      → n.last_size ≡ n.size
      → better_size labels n i ≡ ok size
      → HasLength size (encode_as positions labels n i)
  unfolding better_size encode_as
  encode_as-HasLength n (unconditional_jump d) size p s e =
      rw (p, ← s) (jump-HasLength _ _ n.last_position n.last_size size d (labels d) refl e)
  encode_as-HasLength n (conditional_jump d true) size p s e =
      rw (p, ← s) (jump-HasLength _ _ n.last_position n.last_size size d (labels d) refl e)
  encode_as-HasLength n (conditional_jump d false) size p s e =
      rw (p, ← s) (jump-HasLength _ _ n.last_position n.last_size size d (labels d) refl e)
  encode_as-HasLength n (push_closure c a d x) size p s e =
      closure-HasLength c a x n.last_position n.size size (labels d) e
  encode_as-HasLength n i size p s e = encode_plain-HasLength i size e tt

pub end_of-le : (ns : List Node) (p : ℕ) → p ≤ end_of p ns
end_of-le [] p = omega arith
end_of-le (n ∷ ns) p = omega (arith, end_of-le ns (p + n.size))

-- The same for the loop, which begins with `p` bytes written.
abbrev pub Fills : ℕ → ℕ → Outcome (List ℕ) → Type 0
Fills p q (ok bytes) = p + length bytes ≡ q
Fills p q (abort unimplemented) = Unit
Fills p q _ = ⊥

Fills-append :
    (bytes : List ℕ) (p q : ℕ) (r : Outcome (List ℕ))
    → Fills (p + length bytes) q r
    → Fills p q (r >>= λ rest. ok (bytes ++ rest))
Fills-append bytes p q (ok rest) h = omega (arith, h, length-append {0} bytes rest)
Fills-append bytes p q (abort unimplemented) h = tt
Fills-append bytes p q (abort memory_corruption) h = absurd h
Fills-append bytes p q (abort Abort.assertion) h = absurd h
Fills-append bytes p q (abort Abort.uninitialised) h = absurd h
Fills-append bytes p q (abort Abort.null_pointer) h = absurd h
Fills-append bytes p q (abort Abort.signed_overflow) h = absurd h
Fills-append bytes p q (abort Abort.interpreter_error) h = absurd h
Fills-append bytes p q out_of_fuel h = absurd h

-- One round, by what the node wrote.
Fills-round :
    (size p q limit : ℕ) (r : Outcome (List ℕ)) (others : ℕ → Outcome (List ℕ))
    → p + size ≤ limit
    → HasLength size r
    → Fills (p + size) q (others (p + size))
    → Fills p q (
        r >>= λ bytes.
        if ltb limit (p + length bytes)
        then abort memory_corruption
        else (others (p + length bytes) >>= λ rest. ok (bytes ++ rest)))
Fills-round size p q limit (ok bytes) others fits h k =
    let test : ltb limit (p + length bytes) ≡ false = ground arith in
    rw test (
      Fills-append bytes p q (others (p + length bytes))
        (subst (λ s. Fills (p + s) q (others (p + s))) (sym h) k))
Fills-round size p q limit (abort unimplemented) others fits h k = tt
Fills-round size p q limit (abort memory_corruption) others fits h k = absurd h
Fills-round size p q limit (abort Abort.assertion) others fits h k = absurd h
Fills-round size p q limit (abort Abort.uninitialised) others fits h k = absurd h
Fills-round size p q limit (abort Abort.interpreter_error) others fits h k = absurd h
Fills-round size p q limit (abort Abort.null_pointer) others fits h k = absurd h
Fills-round size p q limit (abort Abort.signed_overflow) others fits h k = absurd h
Fills-round size p q limit out_of_fuel others fits h k = absurd h

module _ (positions : ℕ → ℕ) (labels : Labels) (agrees : Agrees positions labels) where
  pub encode_stream-Fills :
      (ns : List Node) (p limit : ℕ)
      → IsLaid p ns
      → Steps labels ns ns
      → end_of p ns ≤ limit
      → Fills p (end_of p ns) (encode_stream positions labels ns p limit)
  unfolding encode_stream encode
  encode_stream-Fills [] p limit laid st le = omega arith
  encode_stream-Fills (n ∷ ns) p limit (hp, hl, hs, laid) (_, size, st) le =
      Fills-round n.size p (end_of (p + n.size) ns) limit _
        (λ after. encode_stream positions labels ns after limit)
        (omega (arith, end_of-le ns (p + n.size)))
        (encode_as-HasLength positions labels agrees n n.instruction n.size (hp ∙ sym hl) hs size)
        (encode_stream-Fills ns (p + n.size) limit laid st le)
