-- ===== src/Interpreter/Closures.antt =====
-- The encoding of closures (`PushClosure` of vm/MethodBuilder.cpp), read back by
-- `interpretPushClosure` of vm/StackInterpreter.cpp.
use lodtalk.Prelude.{
  ℕ, ◌+◌, ◌*◌, ◌/◌, ◌%◌, ◌^◌, ◌≤◌, ◌<◌, ◌≡◌, ◌↔◌, refl, ◌∙◌, arith, true, List, [], ◌∷◌, ◌++◌,
  length, ◌==◌,
}
use lodtalk.Prelude.Int.{pos, ◌+ℤ◌, ◌*ℤ◌, tdiv, wrap}
use lodtalk.Prelude.Bits.{bit_and-mask, bit_or_field', zero-bit_or}
use lodtalk.Outcome.{ok}
use lodtalk.Assembler.Sizes.{extend_a_value}
use lodtalk.Assembler.Encode.{closure_byte, encode_closure}
use lodtalk.Interpreter.Operation.{Decoded, push_closure}
use lodtalk.Interpreter.Handlers.{extended_b, interpret_push_closure}
use lodtalk.Interpreter.Decode.{dispatch_long, decode}
use lodtalk.Interpreter.Fetch

-- The second byte keeps one bit of the number of copied values.
closure_byte_lem : (c a : ℕ) → a < 8 → closure_byte c a 0 ≡ a + c % 2 * 128
unfolding closure_byte
closure_byte_lem c a h =
    let args : a % 8 * 1 ≡ a = omega arith in
    let low : (a + c % 4 * 2 ^ 7) % 256 ≡ a + c % 2 * 128 = omega arith in
    rw (args, zero-bit_or a, bit_or_field' 7 a (c % 4) (omega arith), low) refl

block_end : (p s : ℕ) → pos p +ℤ extended_b (pos s) (pos 0) ≡ pos (p + s)
unfolding extended_b ◌+ℤ◌ ◌*ℤ◌
block_end p s = ground arith

-- What the decoder gives for a closure with `c` copied values whose block has `s` bytes.
abbrev pub closure_at : ℕ → ℕ → ℕ → ℕ → Decoded
closure_at c a s p = record {
  operation = push_closure c a (p + 3);
  next = pos (p + 3 + s);
  extend_a = 0;
  extend_b = pos 0;
}

module _ (c a s : ℕ) (hc : c < 8) (ha : a < 8) (hs : s < 256) where
  decode_closure :
      (before after : List ℕ)
      → decode (before ++ 250 ∷ closure_byte c a 0 ∷ s ∷ after) (length before) 0 (pos 0)
        ≡ ok (closure_at (c % 2) a s (length before))
  unfolding dispatch_long interpret_push_closure
  decode_closure before after =
      let high : (a + c % 2 * 128) / 2 ^ 7 % 2 ^ 2 ≡ c % 2 = omega arith in
      let low : (a + c % 2 * 128) / 2 ^ 0 % 2 ^ 3 ≡ a = omega arith in
      let same : c % 2 + 0 / 16 * 8 ≡ c % 2 = omega arith in
      let same' : a + 0 % 16 * 8 ≡ a = omega arith in
      rw (closure_byte_lem c a ha) (
        Fetch.decode_long before ((a + c % 2 * 128) ∷ s ∷ after) 250 0 (pos 0) (omega arith)
        ∙ rw
            (
              Fetch.get_elem?-second before (s ∷ after) 250 (a + c % 2 * 128),
              Fetch.get_elem?-third before after 250 (a + c % 2 * 128) s,
              bit_and-mask 2 ((a + c % 2 * 128) / 2 ^ 7),
              bit_and-mask 3 ((a + c % 2 * 128) / 2 ^ 0),
              high,
              low,
              same,
              same',
              block_end (length before + 3) s,
            )
            refl)

  encode_closure-eq : encode_closure c a 0 (pos s) ≡ ok (250 ∷ closure_byte c a 0 ∷ s ∷ [])
  unfolding encode_closure tdiv wrap
  encode_closure-eq =
      let plain : (extend_a_value c a == 0) ≡ true = ground arith in
      let near : (s / 256 == 0) ≡ true = ground arith in
      let same : s % 256 ≡ s = omega arith in rw (plain, near, same) refl

  -- A closure with less than 8 copied values, less than 8 arguments, no extensions and a block of less
  -- than 256 bytes is encoded. Wherever its bytes stand, the interpreter decodes its number of
  -- arguments, the start of its block and the end of the block; it decodes the number of copied
  -- values exactly when that is 0 or 1.
  pub decode-encode_closure :
      (bytes : List ℕ) × (encode_closure c a 0 (pos s) ≡ ok bytes)
      × ((before after : List ℕ)
          → (k : ℕ) × (decode (before ++ (bytes ++ after)) (length before) 0 (pos 0)
              ≡ ok (closure_at k a s (length before)))
            × ((k ≡ c) ↔ (c ≤ 1)))
  decode-encode_closure = (
    250 ∷ closure_byte c a 0 ∷ s ∷ [],
    encode_closure-eq,
    λ before after. (c % 2, decode_closure before after, (λ e. omega arith, λ h. omega arith)),
  )
