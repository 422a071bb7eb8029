-- ===== src/Outcome.antt =====
-- How a run of the source ends: with a value, or by `abort()` (include/Lodtalk/Definitions.h).
use lodtalk.Prelude.{◌≡◌, ap}

-- `unimplemented` is LODTALK_UNIMPLEMENTED, `memory_corruption` the check in `Assembler::generate`,
-- `assertion` a failed `assert`, `interpreter_error` the interpreter's `error`, and `uninitialised`
-- the read of a field that no code has set, or outside of the code of a method,
-- `null_pointer` an access through a null pointer, and `signed_overflow` an operation on signed words
-- whose result is out of their range.
pub data Abort : Type 0 where
  unimplemented memory_corruption assertion uninitialised interpreter_error null_pointer : Abort
  signed_overflow : Abort

-- `out_of_fuel` is no outcome of the source: a loop of the model had too little fuel.
pub data Outcome {ℓ} (A : Type ℓ) : Type ℓ where
  ok : A → Outcome A
  abort : Abort → Outcome A
  out_of_fuel : Outcome A

infixl 5 ◌>>=◌
abbrev pub ◌>>=◌ {ℓ κ} : {X : Type ℓ} {Y : Type κ} → Outcome X → (X → Outcome Y) → Outcome Y
abort why >>= next = abort why
out_of_fuel >>= next = out_of_fuel
ok x >>= next = next x

infixl 5 ◌>>◌
abbrev pub ◌>>◌ {ℓ} : {Y : Type ℓ} → Outcome (Unit {0}) → Outcome Y → Outcome Y
first >> next = first >>= λ _. next

-- `ok` is injective, by its left inverse.
value_or {ℓ} : {A : Type ℓ} → A → Outcome A → A
value_or d (ok a) = a
value_or d (abort e) = d
value_or d out_of_fuel = d

pub ok-injective {ℓ} : {A : Type ℓ} {a b : A} → ok a ≡ ok b → a ≡ b
unfolding value_or
ok-injective {a} p = ap (value_or a) p
