-- ===== src/Interpreter/RoundTrip.antt =====
-- The bytes of an instruction (`encode` in vm/MethodBuilder.cpp), decoded by the interpreter
-- (vm/StackInterpreter.cpp).
use lodtalk.Prelude.{
  ℕ, ◌+◌, ◌/◌, ◌%◌, ◌^◌, ◌≤◌, ◌<◌, ◌≡◌, refl, ◌∙◌, arith, Bool, true, false, ◌&&◌, not, Bool-cases,
  inl, inr, [], ◌∷◌, ltb, ◌==◌, length,
}
use lodtalk.Prelude.Int.{pos}
use lodtalk.Outcome.{ok}
use lodtalk.Assembler.Instruction.{
  Instruction, single_bytecode, push_receiver_variable, store_receiver_variable, push_literal,
  push_literal_variable, store_literal_variable, push_temporal, store_temporal, pop_store_temporal,
  push_array, push_n_closure_temps, call_primitive, push_temporal_in_vector,
  store_temporal_in_vector, pop_store_temporal_in_vector, send_message,
}
use lodtalk.Assembler.Encode.{byte, send_byte, encode_extended, encode_send, encode_plain}
use lodtalk.Interpreter.Operation.{Operation}
use lodtalk.Interpreter.Handlers.{without_operand}
use lodtalk.Interpreter.Decode.{dispatch_push, dispatch_short, dispatch_long}
use lodtalk.Interpreter.Fetch
use lodtalk.Interpreter.Meaning.{IsEncodable, meaning, DecodesTo, Encodes}
use lodtalk.Interpreter.Operands.{
  byte-DecodesTo, indexed-DecodesTo, in_vector-DecodesTo, send-DecodesTo, array-DecodesTo,
  primitive-DecodesTo,
}

-- The forms of one byte.
module _ (o : Operation) (x : ℕ) where
  push-Encodes :
      x < 128
      → ((p : ℕ) → dispatch_push x p 0 (pos 0) ≡ without_operand o p 0 (pos 0))
      → Encodes o (ok (byte x ∷ []))
  push-Encodes h e =
      let same : byte x ≡ x = omega arith in
      (
        x ∷ [],
        rw same refl,
        λ before after. Fetch.decode_push before after x 0 (pos 0) h ∙ e (length before),
      )

  short-Encodes :
      128 ≤ x
      → x < 224
      → ((p : ℕ) → dispatch_short x p 0 (pos 0) ≡ without_operand o p 0 (pos 0))
      → Encodes o (ok (byte x ∷ []))
  short-Encodes h k e =
      let same : byte x ≡ x = omega arith in
      (
        x ∷ [],
        rw same refl,
        λ before after. Fetch.decode_short before after x 0 (pos 0) h k ∙ e (length before),
      )

-- The forms with an operand.
pair-Encodes :
    (o : ℕ → Operation) (opcode x : ℕ)
    → x < 256
    → DecodesTo (o x) (opcode ∷ x ∷ [])
    → Encodes (o x) (ok (opcode ∷ byte x ∷ []))
pair-Encodes o opcode x h d =
    let same : byte x ≡ x = omega arith in (opcode ∷ x ∷ [], rw same refl, d)

extended-Encodes :
    (o : ℕ → Operation) (opcode x : ℕ)
    → x < 256
    → DecodesTo (o x) (opcode ∷ x ∷ [])
    → Encodes (o x) (encode_extended opcode x)
unfolding encode_extended
extended-Encodes o opcode x h d =
    let same : x % 256 ≡ x = omega arith in
    let none : (x / 256 == 0) ≡ true = ground arith in (opcode ∷ x ∷ [], rw (none, same) refl, d)

triple-Encodes :
    (o : ℕ → ℕ → Operation) (opcode x y : ℕ)
    → x < 256
    → y < 256
    → DecodesTo (o x y) (opcode ∷ x ∷ y ∷ [])
    → Encodes (o x y) (ok (opcode ∷ byte x ∷ byte y ∷ []))
triple-Encodes o opcode x y h k d =
    let same : byte x ≡ x = omega arith in
    let same' : byte y ≡ y = omega arith in (opcode ∷ x ∷ y ∷ [], rw (same, same') refl, d)

-- The sends: three short forms and the long one.
short_send-Encodes :
    (s n : ℕ) → s < 16 → n < 3 → Encodes (Operation.send s (pos n) false) (encode_send s n)
unfolding encode_send
short_send-Encodes s n h k =
    let t : ltb s 16 ≡ true = ground arith in
    elim (Fetch.below_three n k) [
      | inl e ↦
          rw (e, t)
            (short-Encodes _ (128 + s) (omega arith) (omega arith)
              (λ p. Fetch.dispatch-send0 s p 0 (pos 0) h))
      | inr (inl e) ↦
          rw (e, t)
            (short-Encodes _ (144 + s) (omega arith) (omega arith)
              (λ p. Fetch.dispatch-send1 s p 0 (pos 0) h))
      | inr (inr e) ↦
          rw (e, t)
            (short-Encodes _ (160 + s) (omega arith) (omega arith)
              (λ p. Fetch.dispatch-send2 s p 0 (pos 0) h))
    ]

long_send-Encodes :
    (s n : ℕ)
    → s < 32
    → n < 8
    → (ltb s 16 && ltb n 3) ≡ false
    → Encodes (Operation.send s (pos n) false) (encode_send s n)
unfolding encode_send
long_send-Encodes s n hs hn h =
    let zero_args : (n == 0 && ltb s 16) ≡ false = ground arith in
    let one_arg : (n == 1 && ltb s 16) ≡ false = ground arith in
    let two_args : (n == 2 && ltb s 16) ≡ false = ground arith in
    let few : ltb 7 n ≡ false = ground arith in
    let near : ltb 31 s ≡ false = ground arith in
    (
      234 ∷ send_byte s n ∷ [],
      rw (zero_args, one_arg, two_args, few, near) refl,
      send-DecodesTo s n hs hn,
    )

encode_send-Encodes :
    (s n : ℕ) → s < 32 → n < 8 → Encodes (Operation.send s (pos n) false) (encode_send s n)
encode_send-Encodes s n hs hn = elim (Bool-cases (ltb s 16 && ltb n 3)) [
  | inl e ↦ short_send-Encodes s n (ground arith) (ground arith)
  | inr e ↦ long_send-Encodes s n hs hn e
]

plain-Encodes :
    (b : ℕ) (r : Bool)
    → IsEncodable (single_bytecode b r)
    → Encodes (Operation.plain b) (ok (byte b ∷ []))
plain-Encodes b r (inl h) =
    push-Encodes _ b (omega arith) (λ p. Fetch.dispatch-plain b p 0 (pos 0) (inl h))
plain-Encodes b r (inr (inl h)) =
    push-Encodes _ b (omega arith) (λ p. Fetch.dispatch-plain b p 0 (pos 0) (inr (inl h)))
plain-Encodes b r (inr (inr (inl h))) =
    push-Encodes _ b (omega arith) (λ p. Fetch.dispatch-plain b p 0 (pos 0) (inr (inr h)))
plain-Encodes b r (inr (inr (inr e))) =
    rw e (short-Encodes _ 216 (omega arith) (omega arith) (λ p. unfold dispatch_short in refl))

-- An instruction whose fields fit its encoding (an index below 256, an array of less than 128 elements,
-- a primitive below 2 ^ 15, a send with a selector index below 32 and less than 8 arguments, or an
-- opcode without operands), other than a jump, a closure or a label, is encoded. Wherever its bytes
-- stand, the interpreter decodes them to the meaning of the instruction, leaves no extensions, and
-- goes on right behind them.
pub decode-encode_plain : (i : Instruction) → IsEncodable i → Encodes (meaning i) (encode_plain i)
unfolding encode_plain dispatch_long
decode-encode_plain (single_bytecode b r) h = plain-Encodes b r h
decode-encode_plain (push_receiver_variable i long) h = elim (Bool-cases (not long && ltb i 16)) [
  | inl e ↦ rw e (
      push-Encodes _ (0 + i) (ground arith)
        (λ p. Fetch.dispatch-push_receiver_variable i p 0 (pos 0) (ground arith)))
  | inr e ↦ rw e (
      extended-Encodes Operation.push_long_receiver_variable 226 i h
        (indexed-DecodesTo 226 _ (omega arith) (λ code p. refl) i h))
]
decode-encode_plain (store_receiver_variable i long) h =
    extended-Encodes Operation.store_instance_variable 243 i h
      (indexed-DecodesTo 243 _ (omega arith) (λ code p. refl) i h)
decode-encode_plain (push_literal i) h = elim (Bool-cases (ltb i 32)) [
  | inl e ↦ rw e (
      push-Encodes _ (32 + i) (ground arith)
        (λ p. Fetch.dispatch-push_literal i p 0 (pos 0) (ground arith)))
  | inr e ↦ rw e (
      extended-Encodes Operation.push_literal 228 i h
        (indexed-DecodesTo 228 _ (omega arith) (λ code p. refl) i h))
]
decode-encode_plain (push_literal_variable i) h = elim (Bool-cases (ltb i 16)) [
  | inl e ↦ rw e (
      push-Encodes _ (16 + i) (ground arith)
        (λ p. Fetch.dispatch-push_literal_variable i p 0 (pos 0) (ground arith)))
  | inr e ↦ rw e (
      extended-Encodes Operation.push_literal_variable 227 i h
        (indexed-DecodesTo 227 _ (omega arith) (λ code p. refl) i h))
]
decode-encode_plain (store_literal_variable i) h =
    extended-Encodes Operation.store_literal_variable 244 i h
      (indexed-DecodesTo 244 _ (omega arith) (λ code p. refl) i h)
decode-encode_plain (push_temporal i) h = elim (Bool-cases (ltb i 12)) [
  | inl e ↦ rw e (
      push-Encodes _ (64 + i) (ground arith)
        (λ p. Fetch.dispatch-push_temporary i p 0 (pos 0) (ground arith)))
  | inr e ↦ rw e (
      pair-Encodes Operation.push_temporary 229 i h
        (byte-DecodesTo 229 _ (omega arith) (λ code p. refl) i))
]
decode-encode_plain (store_temporal i) h =
    pair-Encodes Operation.store_temporary 245 i h
      (byte-DecodesTo 245 _ (omega arith) (λ code p. refl) i)
decode-encode_plain (pop_store_temporal i) h = elim (Bool-cases (ltb i 8)) [
  | inl e ↦ rw e (
      short-Encodes _ (208 + i) (omega arith) (ground arith)
        (λ p. Fetch.dispatch-set_temporary i p 0 (pos 0) (ground arith)))
  | inr e ↦ rw e (
      pair-Encodes Operation.set_temporary 242 i h
        (byte-DecodesTo 242 _ (omega arith) (λ code p. refl) i))
]
decode-encode_plain (push_array n) h =
    pair-Encodes (λ n. Operation.push_array n false) 233 n (omega arith) (array-DecodesTo n h)
decode-encode_plain (push_n_closure_temps n) h =
    pair-Encodes Operation.push_nils 230 n h (byte-DecodesTo 230 _ (omega arith) (λ code p. refl) n)
decode-encode_plain (call_primitive i) h =
    (248 ∷ i % 256 ∷ i / 2 ^ 8 % 256 ∷ [], refl, primitive-DecodesTo i h)
decode-encode_plain (push_temporal_in_vector i v) (h, k) =
    triple-Encodes Operation.push_in_vector 251 i v h k
      (in_vector-DecodesTo 251 _ (omega arith) (λ code p. refl) i v)
decode-encode_plain (store_temporal_in_vector i v) (h, k) =
    triple-Encodes Operation.store_in_vector 252 i v h k
      (in_vector-DecodesTo 252 _ (omega arith) (λ code p. refl) i v)
decode-encode_plain (pop_store_temporal_in_vector i v) (h, k) =
    triple-Encodes Operation.pop_store_in_vector 253 i v h k
      (in_vector-DecodesTo 253 _ (omega arith) (λ code p. refl) i v)
decode-encode_plain (send_message s n) (hs, hn) = encode_send-Encodes s n hs hn
decode-encode_plain _ h = absurd h
