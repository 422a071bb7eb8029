-- ===== src/Assembler/Builder/Runs.antt =====
-- Sequences of calls of `Assembler` in vm/MethodBuilder.cpp.
use lodtalk.Prelude.{
  ℕ, zero, suc, ◌≤◌, ◌<◌, ◌≡◌, refl, ap, ◌∙◌, arith, some, List, [], ◌∷◌, ◌++◌, length,
  length-append, get_elem?, All,
}
use lodtalk.Assembler.Instruction.{
  Instruction, push_literal_variable, store_literal_variable, send_message, super_send_message,
}
use lodtalk.Assembler.Builder.{
  Assembler, add_instruction, add_literal, add_literal_always, make_label,
  use_long_instance_variable_accessors,
}
use lodtalk.Assembler.Builder.Methods
use lodtalk.Assembler.Builder.Sends
use lodtalk.Assembler.Builder.Literals.{IsPrefix, add_literal-IsAdded, append-prefix}
use lodtalk.Assembler.Builder.Meaning.{Adds, Pushes, SendsBy, push_literal-Adds, send-SendsBy}

-- The literals that an instruction refers to are in a table of `k` literals.
abbrev pub RefersWithin : ℕ → Instruction → Type 0
RefersWithin k (Instruction.push_literal i) = i < k
RefersWithin k (push_literal_variable i) = i < k
RefersWithin k (store_literal_variable i) = i < k
RefersWithin k (send_message i n) = i < k
RefersWithin k (super_send_message i n) = i < k
RefersWithin k _ = Unit

abbrev pub IsWellFormed : Assembler → Type 0
IsWellFormed a = All (RefersWithin (length a.literals)) a.instruction_stream

-- One call, for the oops of nil, true and false and the special selectors. Every method that adds an
-- instruction by itself is an `adds`; a literal index that it is given has to be that of a literal.
pub data Call (n t f : ℕ) (special : ℕ → ℕ) : Assembler → Assembler → Type 0 where
  adds :
      {a : Assembler} (i : Instruction)
      → RefersWithin (length a.literals) i
      → Call n t f special a (add_instruction i a)
  adds_literal : {a : Assembler} (v : ℕ) → Call n t f special a ((add_literal v a).1)
  adds_literal_always : {a : Assembler} (v : ℕ) → Call n t f special a ((add_literal_always v a).1)
  makes_label : {a : Assembler} → Call n t f special a ((make_label a).1)
  uses_long : {a : Assembler} → Call n t f special a (use_long_instance_variable_accessors a)
  pushes_literal : {a : Assembler} (v : ℕ) → Call n t f special a (Sends.push_literal n t f v a)
  pushes_variable :
      {a : Assembler} (v : ℕ) → Call n t f special a (Methods.push_literal_variable v a)
  stores_variable :
      {a : Assembler} (v : ℕ) → Call n t f special a (Methods.store_literal_variable v a)
  sends : {a : Assembler} (v m : ℕ) → Call n t f special a (Sends.send special v m a)
  super_sends : {a : Assembler} (v m : ℕ) → Call n t f special a (Methods.super_send v m a)

pub data Calls (n t f : ℕ) (special : ℕ → ℕ) : Assembler → Assembler → Type 0 where
  done : {a : Assembler} → Calls n t f special a a
  call :
      {a b c : Assembler}
      → Call n t f special a b
      → Calls n t f special b c
      → Calls n t f special a c

get_elem?-lt : (xs : List ℕ) (i v : ℕ) → get_elem? xs i ≡ some v → i < length xs
get_elem?-lt [] i v e = cc
get_elem?-lt (x ∷ xs) zero v e = omega arith
get_elem?-lt (x ∷ xs) (suc i) v e = omega (arith, get_elem?-lt xs i v e)

RefersWithin-mono : (i : Instruction) (k l : ℕ) → k ≤ l → RefersWithin k i → RefersWithin l i
RefersWithin-mono (Instruction.push_literal i) k l le h = omega arith
RefersWithin-mono (push_literal_variable i) k l le h = omega arith
RefersWithin-mono (store_literal_variable i) k l le h = omega arith
RefersWithin-mono (send_message i n) k l le h = omega arith
RefersWithin-mono (super_send_message i n) k l le h = omega arith
RefersWithin-mono i k l le h = h

All-mono :
    (is : List Instruction) (k l : ℕ) → k ≤ l → All (RefersWithin k) is → All (RefersWithin l) is
All-mono [] k l le h = tt
All-mono (i ∷ is) k l le (h, hs) = (RefersWithin-mono i k l le h, All-mono is k l le hs)

All-snoc :
    (P : Instruction → Type 0) (is : List Instruction) (i : Instruction)
    → All P is
    → P i
    → All P (is ++ i ∷ [])
All-snoc P [] i h k = (k, tt)
All-snoc P (j ∷ is) i (h, hs) k = (h, All-snoc P is i hs k)

IsPrefix-length : (xs ys : List ℕ) → IsPrefix xs ys → length xs ≤ length ys
IsPrefix-length xs ys (zs, e) = rw e (omega (arith, length-append xs zs))

append_assoc : (xs ys zs : List ℕ) → (xs ++ ys) ++ zs ≡ xs ++ (ys ++ zs)
append_assoc [] ys zs = refl
append_assoc (x ∷ xs) ys zs = ap (λ ws. x ∷ ws) (append_assoc xs ys zs)

IsPrefix-trans : (xs ys zs : List ℕ) → IsPrefix xs ys → IsPrefix ys zs → IsPrefix xs zs
IsPrefix-trans xs ys zs (us, e) (vs, f) =
    (us ++ vs, f ∙ ap (λ ws. ws ++ vs) e ∙ append_assoc xs us vs)

-- What a call keeps: a well-formed stream, and the literals from before at their indices.
abbrev pub Keeps : Assembler → Assembler → Type 0
Keeps a b = (IsWellFormed a → IsWellFormed b) × IsPrefix a.literals b.literals

same-Keeps :
    (a b : Assembler)
    → b.instruction_stream ≡ a.instruction_stream
    → IsPrefix a.literals b.literals
    → Keeps a b
same-Keeps a b same grows = (
  λ h. rw same (
      All-mono a.instruction_stream (length a.literals) (length b.literals)
        (IsPrefix-length a.literals b.literals grows) h),
  grows,
)

Adds-Keeps :
    (P : List ℕ → Instruction → Type 0) (a b : Assembler)
    → ((xs : List ℕ) (i : Instruction) → P xs i → RefersWithin (length xs) i)
    → Adds P a b
    → Keeps a b
Adds-Keeps P a b within (i, added, h, grows) = (
  λ w. rw added (
      All-snoc (RefersWithin (length b.literals)) a.instruction_stream i
        (All-mono a.instruction_stream (length a.literals) (length b.literals)
          (IsPrefix-length a.literals b.literals grows) w)
        (within b.literals i h)),
  grows,
)

-- A literal, and an instruction with its index.
indexed-Keeps :
    (c : ℕ → Instruction) (v : ℕ) (a : Assembler)
    → ((i k : ℕ) → i < k → RefersWithin k (c i))
    → Keeps a (let (i, b) = add_literal v a in add_instruction (c i) b)
indexed-Keeps c v a within =
    let (at, grows, distinct, same) = add_literal-IsAdded v a in
    Adds-Keeps (λ xs i. RefersWithin (length xs) i) a
      (add_instruction (c (add_literal v a).0) (add_literal v a).1) (λ xs i h. h)
      (c _, rw same refl, within _ _ (get_elem?-lt _ _ v at), grows)

Pushes-within :
    (n t f v : ℕ) (xs : List ℕ) (i : Instruction) → Pushes n t f v xs i → RefersWithin (length xs) i
Pushes-within n t f v xs (Instruction.single_bytecode b r) h = tt
Pushes-within n t f v xs (Instruction.push_literal i) h = get_elem?-lt xs i v h
Pushes-within n t f v xs _ h = absurd h

SendsBy-within :
    (v m : ℕ) (xs : List ℕ) (i : Instruction)
    → SendsBy (λ _. Unit {0}) v m xs i
    → RefersWithin (length xs) i
SendsBy-within v m xs (Instruction.single_bytecode b r) h = tt
SendsBy-within v m xs (send_message i k) h = get_elem?-lt xs i v h.0
SendsBy-within v m xs _ h = absurd h

module _ (n t f : ℕ) (special : ℕ → ℕ) where
  Call-Keeps : (a b : Assembler) → Call n t f special a b → Keeps a b
  unfolding Methods.push_literal_variable Methods.store_literal_variable Methods.super_send
  Call-Keeps a b (adds i h) = (
    λ w. All-snoc (RefersWithin (length a.literals)) a.instruction_stream i w h,
    append-prefix a.literals,
  )
  Call-Keeps a b (adds_literal v) =
      let (at, grows, distinct, same) = add_literal-IsAdded v a in same-Keeps a b same grows
  Call-Keeps a b (adds_literal_always v) = same-Keeps a b refl (v ∷ [], refl)
  Call-Keeps a b makes_label = same-Keeps a b refl (append-prefix a.literals)
  Call-Keeps a b uses_long = same-Keeps a b refl (append-prefix a.literals)
  Call-Keeps a b (pushes_literal v) =
      Adds-Keeps (Pushes n t f v) a b (Pushes-within n t f v) (push_literal-Adds n t f v a)
  Call-Keeps a b (pushes_variable v) = indexed-Keeps push_literal_variable v a (λ i k h. h)
  Call-Keeps a b (stores_variable v) = indexed-Keeps store_literal_variable v a (λ i k h. h)
  Call-Keeps a b (sends v m) =
      Adds-Keeps (SendsBy (λ _. Unit {0}) v m) a b (SendsBy-within v m)
        (send-SendsBy special v m (λ _. Unit {0}) (λ k lt e. tt) a)
  Call-Keeps a b (super_sends v m) = indexed-Keeps (λ i. super_send_message i m) v a (λ i k h. h)

  Calls-Keeps : (a b : Assembler) → Calls n t f special a b → Keeps a b
  Calls-Keeps a b done = (λ w. w, append-prefix a.literals)
  Calls-Keeps a c (call {b = b} one more) =
      let (form, grows) = Call-Keeps a b one in
      let (form', grows') = Calls-Keeps b c more in
      (λ w. form' (form w), IsPrefix-trans a.literals b.literals c.literals grows grows')

  -- However many methods of the assembler are called, where each literal index that a method is given is
  -- that of a literal at the time: a well-formed assembler, in which every instruction refers to
  -- literals of the table, stays well-formed, and its literals keep their indices.
  pub Calls-IsWellFormed :
      (a b : Assembler)
      → Calls n t f special a b
      → IsWellFormed a
      → IsWellFormed b × IsPrefix a.literals b.literals
  Calls-IsWellFormed a b calls w = let (form, grows) = Calls-Keeps a b calls in (form w, grows)
