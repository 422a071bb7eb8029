-- ===== src/Assembler/Builder/Meaning.antt =====
-- What the instruction that `pushLiteral` or `send` of vm/MethodBuilder.cpp adds means, with the
-- literals that it refers to.
use lodtalk.Prelude.{
  ℕ, zero, suc, ◌+◌, ◌-◌, ◌≤◌, ◌<◌, ◌≡◌, refl, sym, ap, arith, inl, inr, false, Bool-cases, Option,
  none, some, List, [], ◌∷◌, ◌++◌, ◌==◌, ==_iff, if◌then◌else◌, get_elem?,
}
use lodtalk.Bytecode
use lodtalk.Prelude.Int.{pos}
use lodtalk.ObjectModel.Oop.{encode_small_integer}
use lodtalk.Assembler.Instruction.{Instruction, single_bytecode, send_message}
use lodtalk.Interpreter.Special.{special_argument_count}
use lodtalk.Assembler.Builder.{Assembler, add_literal}
use lodtalk.Assembler.Builder.Sends.{find_special, send_found, send, push_literal}
use lodtalk.Assembler.Builder.Literals.{IsPrefix, add_literal-IsAdded, append-prefix}

-- One instruction is added, which has a property together with the literals; the literals from before
-- keep their indices.
abbrev pub Adds : (List ℕ → Instruction → Type 0) → Assembler → Assembler → Type 0
Adds P a b =
    (i : Instruction) × (b.instruction_stream ≡ a.instruction_stream ++ i ∷ [])
    × P b.literals i
    × IsPrefix a.literals b.literals

-- The oop that a bytecode without operands pushes, by the handlers of vm/StackInterpreter.cpp.
abbrev pub pushed : ℕ → ℕ → ℕ → ℕ → Option ℕ
pushed nil_oop true_oop false_oop opcode =
    if opcode == Bytecode.push_nil
    then some nil_oop
    else if opcode == Bytecode.push_true
    then some true_oop
    else if opcode == Bytecode.push_false
    then some false_oop
    else if opcode == Bytecode.push_one
    then some (encode_small_integer (pos 1))
    else if opcode == Bytecode.push_zero
    then some (encode_small_integer (pos 0))
    else none

abbrev pub Pushes : (nil_oop true_oop false_oop literal : ℕ) → List ℕ → Instruction → Type 0
Pushes n t f v literals (single_bytecode b r) = pushed n t f b ≡ some v
Pushes n t f v literals (Instruction.push_literal i) = get_elem? literals i ≡ some v
Pushes n t f v literals _ = ⊥

-- The message that an instruction sends: `Q` of the index of a special message, or the selector and the
-- number of arguments.
abbrev pub SendsBy : (ℕ → Type 0) → ℕ → ℕ → List ℕ → Instruction → Type 0
SendsBy Q v n literals (single_bytecode b r) =
    (Bytecode.special_message_add ≤ b)
    × (b ≤ Bytecode.special_message_y)
    × Q (b - Bytecode.special_message_add)
SendsBy Q v n literals (send_message i m) = (get_elem? literals i ≡ some v) × (m ≡ n)
SendsBy Q v n literals _ = ⊥

-- A special message with the given selector, whose handler takes the given number of arguments.
abbrev pub IsSpecial : (ℕ → ℕ) → ℕ → ℕ → ℕ → Type 0
IsSpecial special v n index = (special index ≡ v) × (special_argument_count index ≡ some n)

abbrev pub DoesSend : (ℕ → ℕ) → ℕ → ℕ → List ℕ → Instruction → Type 0
DoesSend special v n = SendsBy (IsSpecial special v n) v n

unchanged :
    (P : List ℕ → Instruction → Type 0) (a : Assembler) (i : Instruction)
    → P a.literals i
    → Adds P a (record a { instruction_stream = a.instruction_stream ++ i ∷ [] })
unchanged P a i h = (i, refl, h, append-prefix a.literals)

-- For a literal that is not one of the five special ones.
literal-Adds :
    (n t f v : ℕ) (a : Assembler)
    → Adds (Pushes n t f v) a (
        let (i, b) = add_literal v a in
        record b { instruction_stream = b.instruction_stream ++ Instruction.push_literal i ∷ [] })
literal-Adds n t f v a =
    let (at, grows, distinct, same) = add_literal-IsAdded v a in
    (Instruction.push_literal _, rw same refl, at, grows)

-- Whatever the oops of nil, true and false are, `pushLiteral` adds one instruction, which pushes the
-- given literal; the literals from before keep their indices.
pub push_literal-Adds :
    (n t f v : ℕ) (a : Assembler) → Adds (Pushes n t f v) a (push_literal n t f v a)
unfolding push_literal
push_literal-Adds n t f v a = elim (Bool-cases (v == n)) [
  | inl e ↦ rw e (unchanged (Pushes n t f v) a _ (ap some (sym ((==_iff v n).0 e))))
  | inr e ↦ elim (Bool-cases (v == t)) [
    | inl e' ↦ rw (e, e') (unchanged (Pushes n t f v) a _ (ap some (sym ((==_iff v t).0 e'))))
    | inr e' ↦ elim (Bool-cases (v == f)) [
      | inl d ↦ rw (e, e', d) (unchanged (Pushes n t f v) a _ (ap some (sym ((==_iff v f).0 d))))
      | inr d ↦ elim (Bool-cases (v == encode_small_integer (pos 1))) [
        | inl o ↦
            rw (e, e', d, o) (unchanged (Pushes n t f v) a _ (ap some (sym ((==_iff v _).0 o))))
        | inr o ↦ elim (Bool-cases (v == encode_small_integer (pos 0))) [
          | inl z ↦
              rw (e, e', d, o, z)
                (unchanged (Pushes n t f v) a _ (ap some (sym ((==_iff v _).0 z))))
          | inr z ↦ rw (e, e', d, o, z) (literal-Adds n t f v a)
        ]
      ]
    ]
  ]
]

-- What the loop over the special selectors finds below a bound.
abbrev FoundBelow : (ℕ → ℕ) → ℕ → ℕ → Option ℕ → Type 0
FoundBelow special v bound none = Unit
FoundBelow special v bound (some k) = (k < bound) × (special k ≡ v)

further :
    (special : ℕ → ℕ) (v b c : ℕ) (r : Option ℕ)
    → b ≤ c
    → FoundBelow special v b r
    → FoundBelow special v c r
further special v b c none le h = tt
further special v b c (some k) le h = (omega (arith, h.0), h.1)

find_special-FoundBelow :
    (special : ℕ → ℕ) (v i rounds : ℕ)
    → FoundBelow special v (i + rounds) (find_special special v i rounds)
unfolding find_special
find_special-FoundBelow special v i zero = tt
find_special-FoundBelow special v i (suc rounds) = elim (Bool-cases (v == special i)) [
  | inl t ↦ rw t (omega arith, sym ((==_iff v (special i)).0 t))
  | inr t ↦ rw t (
      further special v (suc i + rounds) (i + suc rounds) _ (omega arith)
        (find_special-FoundBelow special v (suc i) rounds))
]

-- The special messages with the given selector have a property.
module _ (special : ℕ → ℕ) (v n : ℕ) (Q : ℕ → Type 0)
    (of_special : (k : ℕ) → k < 32 → special k ≡ v → Q k) where
  send_found-Adds :
      (a : Assembler) (r : Option ℕ)
      → FoundBelow special v 32 r
      → Adds (SendsBy Q v n) a (send_found r v n a)
  unfolding send_found
  send_found-Adds a none h =
      let (at, grows, distinct, same) = add_literal-IsAdded v a in
      (send_message _ n, rw same refl, (at, refl), grows)
  send_found-Adds a (some k) (lt, found) =
      let e : 96 + k - 96 ≡ k = omega arith in
      unchanged (SendsBy Q v n) a (single_bytecode (96 + k) false)
        (omega arith, omega arith, rw e (of_special k lt found))

  pub send-SendsBy : (a : Assembler) → Adds (SendsBy Q v n) a (send special v n a)
  unfolding send
  send-SendsBy a = send_found-Adds a _ (find_special-FoundBelow special v 0 32)
