-- ===== src/Interpreter/Fetch.antt =====
-- Fetching and dispatching an instruction of vm/StackInterpreter.cpp that stands within a code.
use lodtalk.Prelude.{
  ℕ, suc, ◌+◌, ◌≤◌, ◌<◌, ◌≡◌, ◌⊎◌, refl, arith, true, false, some, List, [], ◌∷◌, ◌++◌, ltb, length,
  get_elem?,
}
use lodtalk.Prelude.Int.{ℤ, pos}
use lodtalk.Interpreter.Operation.{
  plain, push_receiver_variable, push_literal_variable, push_literal, push_temporary, set_temporary,
  send,
}
use lodtalk.Interpreter.Handlers.{without_operand, interpret_jump_short, interpret_jump_on_short}
use lodtalk.Interpreter.Decode.{dispatch_push, dispatch_short, dispatch_long, decode}

module _ {ℓ} {A : Type ℓ} where
  pub get_elem?-first : (xs ys : List A) (y : A) → get_elem? (xs ++ y ∷ ys) (length xs) ≡ some y
  get_elem?-first [] ys y = refl
  get_elem?-first (x ∷ xs) ys y = get_elem?-first xs ys y

  pub get_elem?-second :
      (xs ys : List A) (y z : A) → get_elem? (xs ++ y ∷ z ∷ ys) (length xs + 1) ≡ some z
  get_elem?-second [] ys y z = refl
  get_elem?-second (x ∷ xs) ys y z =
      let e : suc (length xs) + 1 ≡ suc (length xs + 1) = omega arith in
      rw e (get_elem?-second xs ys y z)

  pub get_elem?-third :
      (xs ys : List A) (y z w : A) → get_elem? (xs ++ y ∷ z ∷ w ∷ ys) (length xs + 2) ≡ some w
  get_elem?-third [] ys y z w = refl
  get_elem?-third (x ∷ xs) ys y z w =
      let e : suc (length xs) + 2 ≡ suc (length xs + 2) = omega arith in
      rw e (get_elem?-third xs ys y z w)

module _ (before after : List ℕ) (opcode a : ℕ) (b : ℤ) where
  pub decode_push :
      opcode < 128
      → decode (before ++ opcode ∷ after) (length before) a b
        ≡ dispatch_push opcode (length before) a b
  unfolding decode
  decode_push h =
      let test : ltb opcode 128 ≡ true = ground arith in
      rw (get_elem?-first before after opcode, test) refl

  pub decode_short :
      128 ≤ opcode
      → opcode < 224
      → decode (before ++ opcode ∷ after) (length before) a b
        ≡ dispatch_short opcode (length before) a b
  unfolding decode
  decode_short h k =
      let test : ltb opcode 128 ≡ false = ground arith in
      let test' : ltb opcode 224 ≡ true = ground arith in
      rw (get_elem?-first before after opcode, test, test') refl

  pub decode_long :
      224 ≤ opcode
      → decode (before ++ opcode ∷ after) (length before) a b
        ≡ dispatch_long opcode (before ++ opcode ∷ after) (length before) a b
  unfolding decode
  decode_long h =
      let test : ltb opcode 128 ≡ false = ground arith in
      let test' : ltb opcode 224 ≡ false = ground arith in
      rw (get_elem?-first before after opcode, test, test') refl

-- The short forms, by their ranges.
module _ (i p a : ℕ) (b : ℤ) where
  pub dispatch-push_receiver_variable :
      i < 16 → dispatch_push (0 + i) p a b ≡ without_operand (push_receiver_variable i) p a b
  unfolding dispatch_push
  dispatch-push_receiver_variable h = ground arith

  pub dispatch-push_literal_variable :
      i < 16 → dispatch_push (16 + i) p a b ≡ without_operand (push_literal_variable i) p a b
  unfolding dispatch_push
  dispatch-push_literal_variable h = ground arith

  pub dispatch-push_literal :
      i < 32 → dispatch_push (32 + i) p a b ≡ without_operand (push_literal i) p a b
  unfolding dispatch_push
  dispatch-push_literal h = ground arith

  pub dispatch-push_temporary :
      i < 12 → dispatch_push (64 + i) p a b ≡ without_operand (push_temporary i) p a b
  unfolding dispatch_push
  dispatch-push_temporary h = ground arith

  pub dispatch-send0 :
      i < 16 → dispatch_short (128 + i) p a b ≡ without_operand (send i (pos 0) false) p a b
  unfolding dispatch_short
  dispatch-send0 h = ground arith

  pub dispatch-send1 :
      i < 16 → dispatch_short (144 + i) p a b ≡ without_operand (send i (pos 1) false) p a b
  unfolding dispatch_short
  dispatch-send1 h = ground arith

  pub dispatch-send2 :
      i < 16 → dispatch_short (160 + i) p a b ≡ without_operand (send i (pos 2) false) p a b
  unfolding dispatch_short
  dispatch-send2 h = ground arith

  pub dispatch-set_temporary :
      i < 8 → dispatch_short (208 + i) p a b ≡ without_operand (set_temporary i) p a b
  unfolding dispatch_short
  dispatch-set_temporary h = ground arith

  pub dispatch-jump_short : i < 8 → dispatch_short (176 + i) p a b ≡ interpret_jump_short i p a b
  unfolding dispatch_short
  dispatch-jump_short h = ground arith

  pub dispatch-jump_on_true_short :
      i < 8 → dispatch_short (184 + i) p a b ≡ interpret_jump_on_short true i p a b
  unfolding dispatch_short
  dispatch-jump_on_true_short h = ground arith

  pub dispatch-jump_on_false_short :
      i < 8 → dispatch_short (192 + i) p a b ≡ interpret_jump_on_short false i p a b
  unfolding dispatch_short
  dispatch-jump_on_false_short h = ground arith

  -- The opcodes without operands below 128.
  pub dispatch-plain :
      ((76 ≤ i) × (i < 84)) ⊎ ((88 ≤ i) × (i < 120)) ⊎ ((121 ≤ i) × (i < 128))
      → dispatch_push i p a b ≡ without_operand (plain i) p a b
  unfolding dispatch_push
  dispatch-plain h = ground arith

pub below_three : (n : ℕ) → n < 3 → (n ≡ 0) ⊎ (n ≡ 1) ⊎ (n ≡ 2)
below_three n h = ground arith
