-- ===== src/Assembler/Emission/Lengths.antt =====
-- Each node writes as many bytes as its size says.
use lodtalk.Prelude.{
  ℕ, ◌+◌, ◌/◌, ◌≡◌, refl, arith, inl, inr, Bool, true, false, List, [], ◌∷◌, ◌++◌, ltb, ◌==◌, ◌||◌,
  ◌&&◌, if◌then◌else◌, Bool-cases, length,
}
use lodtalk.Prelude.Int.{ℤ, pos, tdiv}
use mathlib.Core.Path.{subst}
use lodtalk.Outcome.{Outcome, ok, abort, unimplemented, ◌>>=◌, ok-injective}
use lodtalk.Bytecode
use lodtalk.Assembler.Instruction.{
  Instruction, push_receiver_variable, store_receiver_variable, push_literal, push_literal_variable,
  store_literal_variable, push_temporal, pop_store_temporal, push_closure, send_message,
  super_send_message, unconditional_jump, conditional_jump,
}
use lodtalk.Assembler.Sizes.{
  is_zero, is_short_delta, compute_max_size, jump_better_size, sizeof_ext_a, sizeof_ext_b,
  extend_a_value,
}
use lodtalk.Assembler.Relaxation.Monotone.{Aims}
use lodtalk.Assembler.Encode.{
  byte, encode_ext_a, encode_ext_b, encode_extended, send_byte, encode_plain, encode_jump,
  encode_closure,
}

-- That many bytes, or the abort of code that is missing, and nothing else.
abbrev pub HasLength : ℕ → Outcome (List ℕ) → Type 0
HasLength s (ok bytes) = length bytes ≡ s
HasLength s (abort unimplemented) = Unit
HasLength s _ = ⊥

encode_extended-HasLength :
    (opcode index : ℕ) → HasLength (2 + sizeof_ext_a (index / 256)) (encode_extended opcode index)
unfolding encode_extended sizeof_ext_a
encode_extended-HasLength opcode index = elim (Bool-cases (index / 256 == 0)) [
  | inl e ↦ rw e (omega arith)
  | inr e ↦ rw e tt
]

HasLength-if :
    (b : Bool) (x y : ℕ) (p q : Outcome (List ℕ))
    → HasLength x p
    → HasLength y q
    → HasLength (if b then x else y) (if b then p else q)
HasLength-if true x y p q hp hq = hp
HasLength-if false x y p q hp hq = hq

ext_b-HasLength :
    (value : ℤ) (k : ℕ) (x : List ℕ)
    → length x ≡ k
    → HasLength (k + sizeof_ext_b value) (encode_ext_b value >>= λ ext. ok (ext ++ x))
unfolding sizeof_ext_b
ext_b-HasLength value k x h = elim (Bool-cases (is_zero value)) [
  | inl e ↦ rw e (omega arith)
  | inr e ↦ rw e tt
]

ext_a-HasLength :
    (value k : ℕ) (f : List ℕ → Outcome (List ℕ))
    → HasLength k (f [])
    → HasLength (k + sizeof_ext_a value) (encode_ext_a value >>= f)
unfolding sizeof_ext_a
ext_a-HasLength value k f h = elim (Bool-cases (value == 0)) [
  | inl e ↦ rw e (subst (λ n. HasLength n (f [])) (omega arith) h)
  | inr e ↦ rw e tt
]

pub encode_jump-HasLength :
    (short long : ℕ) (delta : ℤ) → HasLength (jump_better_size delta) (encode_jump short long delta)
encode_jump-HasLength short long delta =
    unfold encode_jump jump_better_size in
    HasLength-if (is_zero delta) 0 _ (ok []) _ refl (
      HasLength-if (is_short_delta delta) 1 _ (ok (_ ∷ [])) _ refl
        (ext_b-HasLength (tdiv delta (pos 256)) 2 (_ ∷ _ ∷ []) refl))

pub ext_a-zero : (v : ℕ) → (v == 0) ≡ true → sizeof_ext_a v ≡ 0
unfolding sizeof_ext_a
ext_a-zero v e = rw e

pub ext_b-zero : (v : ℤ) → is_zero v ≡ true → sizeof_ext_b v ≡ 0
unfolding sizeof_ext_b
ext_b-zero v e = rw e

pub encode_closure-HasLength :
    (c a x : ℕ) (block : ℤ)
    → HasLength
        (3 + sizeof_ext_a (extend_a_value c a) + sizeof_ext_b (tdiv block (pos 256)))
        (encode_closure c a x block)
encode_closure-HasLength c a x block = elim (Bool-cases (extend_a_value c a == 0)) [
  | inl e ↦ elim (Bool-cases (is_zero (tdiv block (pos 256)))) [
    | inl f ↦ rw (ext_a-zero _ e, ext_b-zero _ f) (unfold encode_closure in rw (e, f) (omega arith))
    | inr f ↦ unfold encode_closure in rw (e, f) tt
  ]
  | inr e ↦ unfold encode_closure in rw e tt
]

size-if :
    (b : Bool) (x y s : ℕ) (p q : Outcome (List ℕ))
    → (if b then ok x else ok y) ≡ ok s
    → HasLength x p
    → HasLength y q
    → HasLength s (if b then p else q)
size-if true x y s p q e hp hq = subst (λ n. HasLength n p) (ok-injective e) hp
size-if false x y s p q e hp hq = subst (λ n. HasLength n q) (ok-injective e) hq

same-size : (x s : ℕ) (p : Outcome (List ℕ)) → ok x ≡ ok s → HasLength x p → HasLength s p
same-size x s p e h = subst (λ n. HasLength n p) (ok-injective e) h

temporal-if :
    (b : Bool) (s x y z : ℕ)
    → ok (if b then 1 else 2) ≡ ok s
    → HasLength s (if b then ok (x ∷ []) else ok (y ∷ z ∷ []))
temporal-if true s x y z e = ok-injective e
temporal-if false s x y z e = ok-injective e

-- The tests of a send: short with 0, 1 or 2 arguments, and too many arguments or selectors.
send-HasLength :
    (b₀ b₁ b₂ args sel : Bool) (s x y z u v : ℕ)
    → (if b₀ || b₁ || b₂
        then ok 1
        else if args
        then abort unimplemented
        else if sel
        then abort unimplemented
        else ok 2)
      ≡ ok s
    → HasLength s (
        if b₀
        then ok (x ∷ [])
        else if b₁
        then ok (y ∷ [])
        else if b₂
        then ok (z ∷ [])
        else if args
        then abort unimplemented
        else if sel
        then abort unimplemented
        else ok (u ∷ v ∷ []))
send-HasLength true b₁ b₂ args sel s x y z u v e = ok-injective e
send-HasLength false true b₂ args sel s x y z u v e = ok-injective e
send-HasLength false false true args sel s x y z u v e = ok-injective e
send-HasLength false false false true sel s x y z u v e = tt
send-HasLength false false false false true s x y z u v e = tt
send-HasLength false false false false false s x y z u v e = ok-injective e

-- Instructions whose size is the same in every layout.
pub encode_plain-HasLength :
    (i : Instruction) (s : ℕ)
    → compute_max_size i ≡ ok s
    → Aims (λ _. ⊥) i
    → HasLength s (encode_plain i)
unfolding compute_max_size encode_plain
encode_plain-HasLength (push_receiver_variable index long) s e h =
    size-if _ 1 _ s _ _ e refl (encode_extended-HasLength _ index)
encode_plain-HasLength (push_literal index) s e h =
    size-if _ 1 _ s _ _ e refl (encode_extended-HasLength _ index)
encode_plain-HasLength (push_literal_variable index) s e h =
    size-if _ 1 _ s _ _ e refl (encode_extended-HasLength _ index)
encode_plain-HasLength (store_receiver_variable index long) s e h =
    same-size _ s _ e (encode_extended-HasLength _ index)
encode_plain-HasLength (store_literal_variable index) s e h =
    same-size _ s _ e (encode_extended-HasLength _ index)
encode_plain-HasLength (push_temporal index) s e h = temporal-if _ s _ _ _ e
encode_plain-HasLength (pop_store_temporal index) s e h = temporal-if _ s _ _ _ e
encode_plain-HasLength (send_message sel args) s e h =
    send-HasLength (args == 0 && ltb sel Bytecode.send_short_args0_range_size)
      (args == 1 && ltb sel Bytecode.send_short_args1_range_size)
      (args == 2 && ltb sel Bytecode.send_short_args2_range_size)
      (ltb Bytecode.send_argument_count_mask args) (ltb Bytecode.send_literal_index_mask sel) s
      (byte (Bytecode.send_short_args0_first + sel)) (byte (Bytecode.send_short_args1_first + sel))
      (byte (Bytecode.send_short_args2_first + sel)) Bytecode.send (send_byte sel args) e
encode_plain-HasLength (super_send_message sel args) s e h = tt
encode_plain-HasLength (push_closure c n d x) s e h = absurd h
encode_plain-HasLength (unconditional_jump d) s e h = absurd h
encode_plain-HasLength (conditional_jump d c) s e h = absurd h
encode_plain-HasLength i s e h = ok-injective e
