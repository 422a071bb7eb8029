-- ===== src/Interpreter/Operands.antt =====
-- The encodings of vm/MethodBuilder.cpp with operand bytes, read back by vm/StackInterpreter.cpp.
use lodtalk.Prelude.{
  ℕ, ◌+◌, ◌*◌, ◌/◌, ◌%◌, ◌^◌, ◌≤◌, ◌<◌, ◌≡◌, refl, ◌∙◌, arith, false, List, [], ◌∷◌, ◌++◌, length,
}
use mathlib.Core.Path.{subst}
use lodtalk.Prelude.Int.{pos, ◌+ℤ◌, ◌*ℤ◌}
use lodtalk.Prelude.Bits.{bit_and-mask, bit_and-bit, bit_or_field'}
use lodtalk.Assembler.Encode.{send_byte}
use lodtalk.Interpreter.Operation.{Operation}
use lodtalk.Interpreter.Handlers.{
  array_operation, interpret_byte, interpret_indexed, interpret_in_vector, interpret_send,
  interpret_call_primitive,
}
use lodtalk.Interpreter.Decode.{dispatch_long}
use lodtalk.Interpreter.Fetch.{get_elem?-second, get_elem?-third, decode_long}
use lodtalk.Interpreter.Meaning.{DecodesTo}

-- An opcode with one operand byte, by its handler.
module _ (opcode : ℕ) (o : ℕ → Operation) (h : 224 ≤ opcode) where
  pub byte-DecodesTo :
      ((code : List ℕ) (p : ℕ)
        → dispatch_long opcode code p 0 (pos 0) ≡ interpret_byte o code p 0 (pos 0))
      → (x : ℕ) → DecodesTo (o x) (opcode ∷ x ∷ [])
  byte-DecodesTo e x before after =
      decode_long before (x ∷ after) opcode 0 (pos 0) h
      ∙ e (before ++ opcode ∷ x ∷ after) (length before)
      ∙ unfold interpret_byte in rw (get_elem?-second before after opcode x) refl

  pub indexed-DecodesTo :
      ((code : List ℕ) (p : ℕ)
        → dispatch_long opcode code p 0 (pos 0) ≡ interpret_indexed o code p 0 (pos 0))
      → (x : ℕ) → x < 256
      → DecodesTo (o x) (opcode ∷ x ∷ [])
  indexed-DecodesTo e x lt before after =
      let same : (x + 0) % 2 ^ 64 ≡ x = omega arith in
      decode_long before (x ∷ after) opcode 0 (pos 0) h
      ∙ e (before ++ opcode ∷ x ∷ after) (length before)
      ∙ unfold interpret_indexed in rw (get_elem?-second before after opcode x, same) refl

pub in_vector-DecodesTo :
    (opcode : ℕ) (o : ℕ → ℕ → Operation)
    → 224 ≤ opcode
    → ((code : List ℕ) (p : ℕ)
        → dispatch_long opcode code p 0 (pos 0) ≡ interpret_in_vector o code p 0 (pos 0))
    → (x y : ℕ) → DecodesTo (o x y) (opcode ∷ x ∷ y ∷ [])
in_vector-DecodesTo opcode o h e x y before after =
    decode_long before (x ∷ y ∷ after) opcode 0 (pos 0) h
    ∙ e (before ++ opcode ∷ x ∷ y ∷ after) (length before)
    ∙ unfold interpret_in_vector in
      rw (get_elem?-second before (y ∷ after) opcode x, get_elem?-third before after opcode x y)
        refl

-- The second byte of a send: the argument count below the selector index.
send_byte_lem : (s n : ℕ) → s < 32 → n < 8 → send_byte s n ≡ n + s * 8
unfolding send_byte
send_byte_lem s n hs hn =
    let es : s % 32 ≡ s = omega arith in
    let en : n % 8 ≡ n = omega arith in
    let small : (n + s * 2 ^ 3) % 256 ≡ n + s * 8 = omega arith in
    rw (es, en, bit_or_field' 3 n s hn, small) refl

no_more_arguments : (n : ℕ) → pos n +ℤ pos 0 *ℤ pos 8 ≡ pos n
unfolding ◌+ℤ◌ ◌*ℤ◌
no_more_arguments n = ground arith

pub send-DecodesTo :
    (s n : ℕ)
    → s < 32
    → n < 8
    → DecodesTo (Operation.send s (pos n) false) (234 ∷ send_byte s n ∷ [])
unfolding dispatch_long interpret_send
send-DecodesTo s n hs hn before after =
    let low : (n + s * 8) % 2 ^ 3 ≡ n = omega arith in
    let high : (n + s * 8) / 2 ^ 3 % 2 ^ 5 ≡ s = omega arith in
    let index : (s + 0) % 2 ^ 64 ≡ s = omega arith in
    rw (send_byte_lem s n hs hn) (
      decode_long before ((n + s * 8) ∷ after) 234 0 (pos 0) (omega arith)
      ∙ rw
          (
            get_elem?-second before after 234 (n + s * 8),
            bit_and-mask 3 (n + s * 8),
            bit_and-mask 5 ((n + s * 8) / 2 ^ 3),
            low,
            high,
            index,
            no_more_arguments n,
          )
          refl)

pub primitive-DecodesTo :
    (i : ℕ) → i < 2 ^ 15 → DecodesTo (Operation.primitive i) (248 ∷ i % 256 ∷ i / 2 ^ 8 % 256 ∷ [])
unfolding dispatch_long interpret_call_primitive
primitive-DecodesTo i h before after =
    let whole : i % 256 + i / 2 ^ 8 % 256 * 2 ^ 8 ≡ i = omega arith in
    let upper : i / 2 ^ 15 % 2 * 2 ^ 15 ≡ 0 = omega arith in
    let rest : i % 2 ^ 15 ≡ i = omega arith in
    decode_long before (i % 256 ∷ i / 2 ^ 8 % 256 ∷ after) 248 0 (pos 0) (omega arith)
    ∙ rw
        (
          get_elem?-second before (i / 2 ^ 8 % 256 ∷ after) 248 (i % 256),
          get_elem?-third before after 248 (i % 256) (i / 2 ^ 8 % 256),
          bit_or_field' 8 (i % 256) (i / 2 ^ 8 % 256) (omega arith),
          whole,
          bit_and-bit i 15 (omega arith),
          upper,
          rest,
        )
        refl

-- An array of at most 127 elements does not set the flag.
pub array-DecodesTo : (n : ℕ) → n < 128 → DecodesTo (Operation.push_array n false) (233 ∷ n ∷ [])
unfolding dispatch_long
array-DecodesTo n h =
    let size : n % 2 ^ 7 ≡ n = omega arith in
    let flag : n / 2 ^ 7 % 2 * 2 ^ 7 ≡ 0 = omega arith in
    subst (λ o. DecodesTo o (233 ∷ n ∷ []))
      (rw (bit_and-mask 7 n, bit_and-bit n 7 (omega arith), size, flag) refl)
      (byte-DecodesTo 233 array_operation (omega arith) (λ code p. refl) n)
