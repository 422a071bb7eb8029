-- ===== src/Stack/Marriage/Copies.antt =====
-- The loops of vm/StackMemory.cpp that copy the temporaries of a frame to its context.
use Prim.Native.Nat.{bit_and}
use lodtalk.Prelude.{
  ℕ, zero, suc, ◌+◌, ◌-◌, ◌*◌, ◌^◌, ◌≤◌, ◌<◌, ◌≡◌, refl, ap, ◌∙◌, arith, Bool, true, false, ltb,
  if◌then◌else◌, Bool-cases, inl, inr,
}
use lodtalk.Prelude.Bits.{bit_and_split, bit_and-zero}
use lodtalk.Stack.Frames.{Words, StackFrame}
use lodtalk.Stack.Metadata.{bit, bit-le}
use lodtalk.Stack.Calls.{store}
use lodtalk.Stack.Marriage.{
  get_argument_at_reverse_index, write_slot, copy_arguments, copy_temporaries,
}
use lodtalk.Outcome.{ok, abort, memory_corruption, ◌>>=◌}

-- The slots after the loops, where all of them fit.
pub with_arguments : Words → StackFrame → ℕ → ℕ → Words → Words
with_arguments memory f n zero slots = slots
with_arguments memory f n (suc i) slots =
    store (with_arguments memory f n i slots) i (memory (f.frame_pointer + 16 + (n - i - 1) * 8))

pub with_temporaries : Words → ℕ → ℕ → ℕ → Words → Words
with_temporaries memory zero current index slots = slots
with_temporaries memory (suc k) current index slots =
    with_temporaries memory k (current - 8) (index + 1) (store slots index (memory current))

write_slot-inside :
    (c i value : ℕ) (slots : Words) → i < c → write_slot c slots i value ≡ ok (store slots i value)
unfolding write_slot
write_slot-inside c i value slots lt = let inside : ltb i c ≡ true = ground arith in rw inside refl

write_slot-outside :
    (c i value : ℕ) (slots : Words) → c ≤ i → write_slot c slots i value ≡ abort memory_corruption
unfolding write_slot
write_slot-outside c i value slots le =
    let outside : ltb i c ≡ false = ground arith in rw outside refl

pub copy_arguments-ok :
    (memory : Words) (f : StackFrame) (c n k : ℕ) (slots : Words)
    → k ≤ c
    → copy_arguments memory f c n k slots ≡ ok (with_arguments memory f n k slots)
unfolding copy_arguments get_argument_at_reverse_index with_arguments
copy_arguments-ok memory f c n zero slots le = refl
copy_arguments-ok memory f c n (suc k) slots le =
    rw (copy_arguments-ok memory f c n k slots (omega arith))
      (write_slot-inside c k _ _ (omega arith))

-- The slots of the arguments, and the others.
pub with_arguments-at :
    (memory : Words) (f : StackFrame) (n k i : ℕ) (slots : Words)
    → with_arguments memory f n k slots i
      ≡ (if ltb i k then memory (f.frame_pointer + 16 + (n - i - 1) * 8) else slots i)
unfolding with_arguments
with_arguments-at memory f n zero i slots = ground arith
with_arguments-at memory f n (suc k) i slots =
    let before = with_arguments-at memory f n k i slots in ground (arith, before)

-- The loop ends after `k` words, or it leaves the slots.
module _ (memory : Words) (f : StackFrame) (c : ℕ) (low : 8 ≤ f.stack_pointer) where
  one_round :
      (k fuel index current : ℕ) (slots : Words)
      → current + 8 ≡ f.stack_pointer + 8 * suc k
      → copy_temporaries memory f c (suc fuel) current index slots ≡ (
          write_slot c slots index (memory current)
          >>= copy_temporaries memory f c fuel (current - 8) (index + 1))
  unfolding copy_temporaries
  one_round k fuel index current slots e =
      let more : ltb current f.stack_pointer ≡ false = ground arith in rw more refl

  pub copy_temporaries-ok :
      (k fuel index current : ℕ) (slots : Words)
      → k < fuel
      → current + 8 ≡ f.stack_pointer + 8 * k
      → index + k ≤ c
      → copy_temporaries memory f c fuel current index slots
        ≡ ok (with_temporaries memory k current index slots)
  unfolding copy_temporaries with_temporaries
  copy_temporaries-ok k zero index current slots lt e fits = elim lt [ ]
  copy_temporaries-ok zero (suc fuel) index current slots lt e fits =
      let none_left : ltb current f.stack_pointer ≡ true = ground arith in rw none_left refl
  copy_temporaries-ok (suc k) (suc fuel) index current slots lt e fits =
      one_round k fuel index current slots e
      ∙ rw (write_slot-inside c index (memory current) slots (omega arith)) (
          copy_temporaries-ok k fuel (index + 1) (current - 8) (store slots index (memory current))
            (omega arith) (omega arith) (omega arith))

  pub copy_temporaries-overrun :
      (k fuel index current : ℕ) (slots : Words)
      → k < fuel
      → current + 8 ≡ f.stack_pointer + 8 * k
      → index ≤ c
      → c < index + k
      → copy_temporaries memory f c fuel current index slots ≡ abort memory_corruption
  copy_temporaries-overrun k zero index current slots lt e le over = elim lt [ ]
  copy_temporaries-overrun zero (suc fuel) index current slots lt e le over = absurd (omega arith)
  copy_temporaries-overrun (suc k) (suc fuel) index current slots lt e le over =
      one_round k fuel index current slots e ∙ elim (Bool-cases (ltb index c)) [
        | inl inside ↦ rw (write_slot-inside c index (memory current) slots (ground arith)) (
            copy_temporaries-overrun k fuel (index + 1) (current - 8)
              (store slots index (memory current)) (omega arith) (omega arith) (ground arith)
              (omega arith))
        | inr outside ↦ rw (write_slot-outside c index (memory current) slots (ground arith)) refl
      ]

module _ (memory : Words) where
  pub with_temporaries-keeps :
      (k index i current : ℕ) (slots : Words)
      → i < index
      → with_temporaries memory k current index slots i ≡ slots i
  unfolding with_temporaries
  with_temporaries-keeps zero index i current slots lt = refl
  with_temporaries-keeps (suc k) index i current slots lt =
      with_temporaries-keeps k (index + 1) i (current - 8) (store slots index (memory current))
        (omega arith)
      ∙ ground arith

  pub with_temporaries-copied :
      (k index j current : ℕ) (slots : Words)
      → j < k
      → with_temporaries memory k current index slots (index + j) ≡ memory (current - j * 8)
  unfolding with_temporaries
  with_temporaries-copied zero index j current slots lt = elim lt [ ]
  with_temporaries-copied (suc k) index zero current slots lt =
      with_temporaries-keeps k (index + 1) (index + 0) (current - 8)
        (store slots index (memory current)) (omega arith)
      ∙ ground arith
  with_temporaries-copied (suc k) index (suc j) current slots lt =
      ap (with_temporaries memory k (current - 8) (index + 1) (store slots index (memory current)))
        (omega arith)
      ∙ with_temporaries-copied k (index + 1) j (current - 8) (store slots index (memory current))
          (omega arith)
      ∙ ap memory (omega arith)

-- The flags of the metadata of a frame.
pub context-flag :
    (c b : Bool) (n : ℕ)
    → n < 256
    → bit_and (n + bit b * 2 ^ 8 + bit c * 2 ^ 16) 0xFF0000 ≡ bit c * 2 ^ 16
context-flag c b n h =
    let low : n + bit b * 2 ^ 8 < 2 ^ 16 = omega (arith, bit-le b) in
    let split : n + bit b * 2 ^ 8 + bit c * 2 ^ 16 ≡ bit c * 2 ^ 16 + (n + bit b * 2 ^ 8) =
      omega arith in
    ap (λ (w : ℕ). bit_and w (0xFF * 2 ^ 16 + 0)) split
    ∙ bit_and_split 16 (bit c) (n + bit b * 2 ^ 8) 0xFF 0 low (omega arith)
    ∙ rw (bit_and-zero (n + bit b * 2 ^ 8)) (flag c)
  where
    flag : (c : Bool) → bit_and (bit c) 0xFF * 2 ^ 16 + 0 ≡ bit c * 2 ^ 16
    flag true = refl
    flag false = refl
