-- ===== src/Assembler/Emission/Success.antt =====
-- When `encode` of vm/MethodBuilder.cpp has code for every instruction of a stream.
use lodtalk.Prelude.{
  ℕ, ◌+◌, ◌-◌, ◌/◌, ◌≤◌, ◌<◌, ◌≡◌, refl, arith, Bool, true, false, List, [], ◌∷◌, ◌&&◌, ltb, ◌==◌,
  if◌then◌else◌,
}
use lodtalk.Prelude.Int.{ℤ, pos, negsuc, nat_abs, tdiv, trem, wrap}
use lodtalk.Outcome.{Outcome, ok}
use lodtalk.Bytecode
use lodtalk.Assembler.Instruction.{
  Instruction, push_receiver_variable, store_receiver_variable, push_literal, push_literal_variable,
  store_literal_variable, push_temporal, pop_store_temporal, push_closure, send_message,
  super_send_message,
}
use lodtalk.Assembler.Sizes.{is_zero, is_short_delta, extend_a_value, jump_delta_value}
use lodtalk.Assembler.Encode.{
  byte, send_byte, encode_extended, encode_send, encode_plain, encode_jump, encode_closure,
}

abbrev pub IsOk {ℓ} : {A : Type ℓ} → Outcome A → Type ℓ
IsOk {A} r = (a : A) × (r ≡ ok a)

-- The instructions that need no extension A: indices below 256, and closures with less than 8 copied
-- values and arguments. A send has a selector index of at most 31 and at most 7 arguments.
abbrev pub NeedsNoExtension : Instruction → Type 0
NeedsNoExtension (push_receiver_variable i long) = i < 256
NeedsNoExtension (store_receiver_variable i long) = i < 256
NeedsNoExtension (push_literal i) = i < 256
NeedsNoExtension (push_literal_variable i) = i < 256
NeedsNoExtension (store_literal_variable i) = i < 256
NeedsNoExtension (push_closure c a d x) = (c < 8) × (a < 8)
NeedsNoExtension (send_message s a) = (s ≤ 31) × (a ≤ 7)
NeedsNoExtension (super_send_message s a) = ⊥
NeedsNoExtension _ = Unit

if-IsOk : (b : Bool) (p q : Outcome (List ℕ)) → IsOk p → IsOk q → IsOk (if b then p else q)
if-IsOk true p q h k = h
if-IsOk false p q h k = k

encode_extended-IsOk : (opcode i : ℕ) → i < 256 → IsOk (encode_extended opcode i)
unfolding encode_extended
encode_extended-IsOk opcode i h =
    let plain : (i / 256 == 0) ≡ true = ground arith in rw plain (_, refl)

send_forms :
    (b₀ b₁ b₂ : Bool) (p q r w : List ℕ)
    → IsOk (if b₀ then ok p else if b₁ then ok q else if b₂ then ok r else ok w)
send_forms true b₁ b₂ p q r w = (p, refl)
send_forms false true b₂ p q r w = (q, refl)
send_forms false false true p q r w = (r, refl)
send_forms false false false p q r w = (w, refl)

encode_send-IsOk : (s a : ℕ) → s ≤ 31 → a ≤ 7 → IsOk (encode_send s a)
unfolding encode_send
encode_send-IsOk s a h k =
    let few : ltb 7 a ≡ false = ground arith in
    let near : ltb 31 s ≡ false = ground arith in
    rw (few, near)
      (send_forms (a == 0 && ltb s 16) (a == 1 && ltb s 16) (a == 2 && ltb s 16)
        (byte (128 + s) ∷ []) (byte (144 + s) ∷ []) (byte (160 + s) ∷ [])
        (Bytecode.send ∷ send_byte s a ∷ []))

pub encode_plain-IsOk : (i : Instruction) → NeedsNoExtension i → IsOk (encode_plain i)
unfolding encode_plain
encode_plain-IsOk (push_receiver_variable i long) h =
    if-IsOk _ _ _ (_, refl) (encode_extended-IsOk _ i h)
encode_plain-IsOk (store_receiver_variable i long) h = encode_extended-IsOk _ i h
encode_plain-IsOk (push_literal i) h = if-IsOk _ _ _ (_, refl) (encode_extended-IsOk _ i h)
encode_plain-IsOk (push_literal_variable i) h = if-IsOk _ _ _ (_, refl) (encode_extended-IsOk _ i h)
encode_plain-IsOk (store_literal_variable i) h = encode_extended-IsOk _ i h
encode_plain-IsOk (push_temporal i) h = if-IsOk _ _ _ (_, refl) (_, refl)
encode_plain-IsOk (pop_store_temporal i) h = if-IsOk _ _ _ (_, refl) (_, refl)
encode_plain-IsOk (send_message s a) h = encode_send-IsOk s a h.0 h.1
encode_plain-IsOk (super_send_message s a) h = absurd h
encode_plain-IsOk i h = (_, refl)

near_quotient : (d : ℤ) → nat_abs d < 256 → is_zero (tdiv d (pos 256)) ≡ true
unfolding tdiv
near_quotient (pos n) h = ground arith
near_quotient (negsuc n) h = ground arith

jump_forms : (b₀ b₁ : Bool) (p q : List ℕ) → IsOk (if b₀ then ok [] else if b₁ then ok p else ok q)
jump_forms true b₁ p q = ([], refl)
jump_forms false true p q = (p, refl)
jump_forms false false p q = (q, refl)

pub encode_jump-IsOk : (short long : ℕ) (d : ℤ) → nat_abs d < 256 → IsOk (encode_jump short long d)
unfolding encode_jump
encode_jump-IsOk short long d h = rw (near_quotient d h) (
    jump_forms (is_zero d) (is_short_delta d) (byte (short + nat_abs d - 1) ∷ [])
      (long ∷ wrap 256 (trem d (pos 256)) ∷ []))

pub encode_closure-IsOk :
    (c a x : ℕ) (d : ℤ) → c < 8 → a < 8 → nat_abs d < 256 → IsOk (encode_closure c a x d)
unfolding encode_closure
encode_closure-IsOk c a x d hc ha h =
    let plain : (extend_a_value c a == 0) ≡ true = ground arith in
    rw (plain, near_quotient d h) (_, refl)

-- Two places within 255 bytes.
pub delta_near :
    (t p s bound : ℕ)
    → t ≤ bound
    → p + s ≤ bound
    → bound < 256
    → nat_abs (jump_delta_value t p s) < 256
delta_near t p s bound h k lt = ground arith
