-- ===== src/Interpreter/Jumps.antt =====
-- Where the jumps of the assembler (vm/MethodBuilder.cpp) land in the interpreter
-- (vm/StackInterpreter.cpp).
use lodtalk.Prelude.{
  ℕ, ◌+◌, ◌-◌, ◌≤◌, ◌<◌, ◌≡◌, ◌↔◌, refl, sym, ap, ◌∙◌, arith, Bool, true, false, Bool-cases, inl,
  inr, List, [], ◌∷◌, ◌++◌, length,
}
use mathlib.Core.Path.{subst, fun_ext}
use lodtalk.Prelude.Int.{ℤ, pos, negsuc, ◌+ℤ◌, ◌*ℤ◌, ◌≤ℤ◌, nat_abs, tdiv, trem, wrap}
use lodtalk.Outcome.{Outcome, ok}
use lodtalk.Assembler.Instruction.{Node, unconditional_jump, conditional_jump}
use lodtalk.Assembler.Sizes.{is_zero, is_short_delta, jump_delta_value, Labels}
use lodtalk.Assembler.Encode.{byte, encode_jump, encode_as}
use lodtalk.Interpreter.Operation.{Operation, Decoded, go_to, branch}
use lodtalk.Interpreter.Handlers.{
  interpret_jump_short, jump_on_operation, signed8, extended_b, without_operand, interpret_signed,
}
use lodtalk.Interpreter.Decode.{dispatch_short, dispatch_long, decode}
use lodtalk.Interpreter.Fetch

-- Where an operation jumps to; the start of the code if it does not jump.
abbrev target : Operation → ℤ
target (go_to t) = t
target (branch c t) = t
target _ = pos 0

abbrev landing : Outcome Decoded → ℤ
landing (ok d) = target d.operation
landing _ = pos 0

-- A jump over `delta` bytes from its own end, within a code.
abbrev pub Jumps : (ℤ → Operation) → ℤ → List ℕ → List ℕ → List ℕ → Type 0
Jumps o delta bytes before after =
    decode (before ++ (bytes ++ after)) (length before) 0 (pos 0)
    ≡ ok record {
      operation = o (pos (length before + length bytes) +ℤ delta);
      next = pos (length before + length bytes);
      extend_a = 0;
      extend_b = pos 0;
    }

-- The range of one signed byte.
abbrev pub FitsByte : ℤ → Type 0
FitsByte delta = (negsuc 127 ≤ℤ delta) × (delta ≤ℤ pos 127)

-- The distance that a byte stands for, when it is read back.
abbrev jump_byte : ℤ → ℕ
unfolding trem wrap
jump_byte delta = wrap 256 (trem delta (pos 256))

signed8-jump_byte : (delta : ℤ) → FitsByte delta → signed8 (jump_byte delta) ≡ delta
unfolding jump_byte
signed8-jump_byte (pos n) h = ground arith
signed8-jump_byte (negsuc n) h = ground arith

signed8-FitsByte : (x : ℕ) → x < 256 → FitsByte (signed8 x)
signed8-FitsByte x h = ground arith

jump_byte-lt : (delta : ℤ) → jump_byte delta < 256
unfolding jump_byte
jump_byte-lt (pos n) = omega arith
jump_byte-lt (negsuc n) = ground arith

+ℤ-cancel : (p : ℕ) (a b : ℤ) → pos p +ℤ a ≡ pos p +ℤ b → a ≡ b
unfolding ◌+ℤ◌
+ℤ-cancel p (pos a) (pos b) e = ground arith
+ℤ-cancel p (pos a) (negsuc b) e = ground arith
+ℤ-cancel p (negsuc a) (pos b) e = ground arith
+ℤ-cancel p (negsuc a) (negsuc b) e = ground arith

no_extension : (d : ℤ) → extended_b d (pos 0) ≡ d
unfolding extended_b ◌+ℤ◌ ◌*ℤ◌
no_extension (pos n) = ground arith
no_extension (negsuc n) = ground arith

short_end : (p m : ℕ) → 1 ≤ m → pos (p + 2 + (m - 1)) ≡ pos (p + 1) +ℤ pos m
unfolding ◌+ℤ◌
short_end p m h = ground arith

near_quotient : (d : ℤ) → nat_abs d < 256 → is_zero (tdiv d (pos 256)) ≡ true
unfolding tdiv
near_quotient (pos n) h = ground arith
near_quotient (negsuc n) h = ground arith

short_distance : (d : ℤ) → is_short_delta d ≡ true → (m : ℕ) × (d ≡ pos m) × (1 ≤ m) × (m ≤ 8)
short_distance (pos n) e = (n, refl, ground arith, ground arith)
short_distance (negsuc n) e = cc

short_target :
    (i p : ℕ)
    → interpret_jump_short i p 0 (pos 0) ≡ without_operand (go_to (pos (p + 2 + i))) p 0 (pos 0)
short_target i p = let e : p + 1 + (i + 1) ≡ p + 2 + i = omega arith in rw e refl

-- One kind of jump, by its opcodes and what the interpreter does with them.
module _ (o : ℤ → Operation) (short long : ℕ) (in_short : (128 ≤ short) × (short ≤ 192))
    (in_long : 224 ≤ long) (target_of : (t : ℤ) → target (o t) ≡ t)
    (does_short : (i p : ℕ)
      → i < 8
      → dispatch_short (short + i) p 0 (pos 0) ≡ without_operand (o (pos (p + 2 + i))) p 0 (pos 0))
    (does_long : (code : List ℕ) (p : ℕ)
      → dispatch_long long code p 0 (pos 0)
        ≡ interpret_signed (λ d. o (pos (p + 2) +ℤ d)) code p 0 (pos 0)) where
  short-Jumps :
      (m : ℕ)
      → 1 ≤ m
      → m ≤ 8
      → (before after : List ℕ) → Jumps o (pos m) (byte (short + m - 1) ∷ []) before after
  short-Jumps m lo hi before after =
      let same : byte (short + m - 1) ≡ short + (m - 1) = omega arith in
      rw (same, ← short_end (length before) m lo)
        (Fetch.decode_short before after (short + (m - 1)) 0 (pos 0) (omega arith) (omega arith)
          ∙ does_short (m - 1) (length before) (omega arith))

  decode_jump : (x : ℕ) (before after : List ℕ) → Jumps o (signed8 x) (long ∷ x ∷ []) before after
  decode_jump x before after =
      Fetch.decode_long before (x ∷ after) long 0 (pos 0) in_long
      ∙ does_long (before ++ long ∷ x ∷ after) (length before)
      ∙ unfold interpret_signed in
        rw (Fetch.get_elem?-second before after long x, no_extension (signed8 x)) refl

  long-Jumps :
      (x : ℕ) (delta : ℤ) (before after : List ℕ)
      → Jumps o delta (long ∷ x ∷ []) before after ↔ (signed8 x ≡ delta)
  long-Jumps x delta before after = (
    λ e.
        let same = ap landing (sym (decode_jump x before after) ∙ e) in
        +ℤ-cancel (length before + 2) (signed8 x) delta (sym (target_of _) ∙ same ∙ target_of _),
    λ e. subst (λ d. Jumps o d (long ∷ x ∷ []) before after) e (decode_jump x before after),
  )

  jump-lands :
      (delta : ℤ)
      → is_zero delta ≡ false
      → nat_abs delta < 256
      → (bytes : List ℕ) × (encode_jump short long delta ≡ ok bytes)
        × ((before after : List ℕ) → Jumps o delta bytes before after ↔ FitsByte delta)
  unfolding encode_jump
  jump-lands delta nonzero near = elim (Bool-cases (is_short_delta delta)) [
    | inl e ↦
        let (m, same, lo, hi) = short_distance delta e in
        (
          byte (short + m - 1) ∷ [],
          rw (nonzero, e, same) refl,
          rw same (λ before after.
              (λ _. (omega arith, omega arith), λ _. short-Jumps m lo hi before after)),
        )
    | inr e ↦ (
      long ∷ jump_byte delta ∷ [],
      rw (nonzero, e, near_quotient delta near) (unfold jump_byte in refl),
      λ before after. (
        λ j.
            subst FitsByte ((long-Jumps (jump_byte delta) delta before after).0 j)
              (signed8-FitsByte (jump_byte delta) (jump_byte-lt delta)),
        λ f. (long-Jumps (jump_byte delta) delta before after).1 (signed8-jump_byte delta f),
      ),
    )
  ]

jump_on_distance : (p : ℕ) (d : ℤ) → pos (p + 3) +ℤ (d +ℤ negsuc 0) ≡ pos (p + 2) +ℤ d
unfolding ◌+ℤ◌
jump_on_distance p (pos n) = ground arith
jump_on_distance p (negsuc n) = ground arith

signed_branch :
    (condition : Bool) (code : List ℕ) (p : ℕ)
    → interpret_signed (jump_on_operation condition p) code p 0 (pos 0)
      ≡ interpret_signed (λ d. branch condition (pos (p + 2) +ℤ d)) code p 0 (pos 0)
signed_branch condition code p =
    ap (λ f. interpret_signed f code p 0 (pos 0))
      (fun_ext λ d. ap (branch condition) (jump_on_distance p d))

module _ (positions : ℕ → ℕ) (labels : Labels) (n : Node) (d : ℕ) where
  -- The distance from the end of the jump to its label.
  abbrev pub distance : ℤ
  distance = jump_delta_value (positions d) n.position n.size

  -- An unconditional jump to a label that is not right behind it and less than 256 bytes away is
  -- encoded, and wherever its bytes stand, the interpreter goes on at that label exactly when the
  -- distance from the end of the jump fits a signed byte.
  pub unconditional_jump-Jumps :
      is_zero distance ≡ false
      → nat_abs distance < 256
      → (bytes : List ℕ) × (encode_as positions labels n (unconditional_jump d) ≡ ok bytes)
        × ((before after : List ℕ) → Jumps go_to distance bytes before after ↔ FitsByte distance)
  unfolding encode_as
  unconditional_jump-Jumps nonzero near =
      jump-lands go_to 176 237 (omega arith, omega arith) (omega arith) (λ t. refl)
        (λ i p h. Fetch.dispatch-jump_short i p 0 (pos 0) h ∙ short_target i p)
        (λ code p. unfold dispatch_long in refl) distance nonzero near

  -- A conditional jump to a label that is not right behind it and less than 256 bytes away is encoded,
  -- and wherever its bytes stand, the interpreter decodes a branch on its condition, which goes to
  -- that label exactly when the distance from the end of the jump fits a signed byte.
  pub conditional_jump-Jumps :
      (condition : Bool)
      → is_zero distance ≡ false
      → nat_abs distance < 256
      → (bytes : List ℕ) × (encode_as positions labels n (conditional_jump d condition) ≡ ok bytes)
        × ((before after : List ℕ)
            → Jumps (branch condition) distance bytes before after ↔ FitsByte distance)
  unfolding encode_as
  conditional_jump-Jumps true nonzero near =
      jump-lands (branch true) 184 238 (omega arith, omega arith) (omega arith) (λ t. refl)
        (λ i p h. Fetch.dispatch-jump_on_true_short i p 0 (pos 0) h)
        (λ code p. unfold dispatch_long in signed_branch true code p) distance nonzero near
  conditional_jump-Jumps false nonzero near =
      jump-lands (branch false) 192 239 (omega arith, omega arith) (omega arith) (λ t. refl)
        (λ i p h. Fetch.dispatch-jump_on_false_short i p 0 (pos 0) h)
        (λ code p. unfold dispatch_long in signed_branch false code p) distance nonzero near
