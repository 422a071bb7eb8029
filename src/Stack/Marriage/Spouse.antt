-- ===== src/Stack/Marriage/Spouse.antt =====
-- What the context of a married frame holds.
use Prim.Native.Nat.{bit_and}
use mathlib.Core.Path.{subst}
use lodtalk.Prelude.{
  ℕ, ◌+◌, ◌-◌, ◌*◌, ◌/◌, ◌^◌, ◌≤◌, ◌<◌, ◌≡◌, ◌≢◌, refl, ap, ◌∙◌, arith, Bool, true, false, not, ltb,
  leb, ◌==◌, if◌then◌else◌, Bool-cases, ◌⊎◌, inl, inr,
}
use lodtalk.Prelude.Bits.{bit_and-mask}
use lodtalk.Outcome.{ok, abort, memory_corruption}
use lodtalk.Stack.Frames.{
  Words, StackFrame, get_prev_frame_pointer, get_metadata, get_argument_count,
  encode_frame_meta_data, marry_metadata,
}
use lodtalk.Stack.Metadata.{bit, bit-le, encode-word, marry-word}
use lodtalk.ObjectModel.Oop.{encode_small_integer}
use lodtalk.Prelude.Int.{pos}
use lodtalk.Stack.Calls.Temporaries.{temporary_address}
use lodtalk.Stack.Marriage.{
  Context, Contexts, set_context, has_context, is_block_activation, get_argument_at_reverse_index,
  large_context_slots, married_words, spouse_slot_count, spouse, marry_frame,
  update_married_spouse_state,
}
use lodtalk.Stack.Marriage.Copies.{
  with_arguments, with_temporaries, copy_arguments-ok, with_arguments-at, copy_temporaries-ok,
  copy_temporaries-overrun, with_temporaries-keeps, with_temporaries-copied, context-flag,
}
use lodtalk.ObjectModel.HeaderFields.{needs_large_frame_always}

-- What the context of a frame holds, whose arguments and variables are `n` and `k` words.
pub record IsSpouse (memory : Words) (f : StackFrame) (n k : ℕ) (context : Context) : Type 0 where
  pub sender : context.sender ≡ f.frame_pointer + 1
  pub receiver : context.receiver ≡ memory (f.frame_pointer - 32)
  pub method : context.method ≡ memory (f.frame_pointer - 8)
  pub temporaries :
      (i : ℕ) → i < n + k → context.slots i ≡ memory (temporary_address f.frame_pointer n i)

-- updateMarriedSpouseState copies the state of the frame to its context, at `fresh`; or its words are
-- more than the context has slots, and it writes past them.
abbrev pub Updates : ℕ → ℕ → Words → StackFrame → ℕ → ℕ → Words → Contexts → Contexts → Type 0
Updates nil_object fresh memory f n k married contexts during =
    ((n + k ≤ large_context_slots)
      × (later : Contexts) × (update_married_spouse_state nil_object married f during ≡ ok later)
      × IsSpouse memory f n k (later fresh)
      × ((a : ℕ) → fresh ≢ a → later a ≡ contexts a))
    ⊎ ((large_context_slots < n + k)
        × (update_married_spouse_state nil_object married f during ≡ abort memory_corruption))

module _ (nil_object fresh : ℕ) (create : ℕ → Context) (heap memory : Words) (f : StackFrame)
    (is_block : Bool) (n k : ℕ) (sized : (s : ℕ) → (create s).slot_count ≡ s)
    (small : n ≤ large_context_slots)
    (word : memory (f.frame_pointer - 16) ≡ encode_frame_meta_data false is_block n)
    (layout : f.frame_pointer ≡ f.stack_pointer + 8 * k + 32) (low : 8 ≤ f.stack_pointer) where
  abbrev married : Words
  married = married_words fresh memory f

  word_before : memory (f.frame_pointer - 16) ≡ n + bit is_block * 2 ^ 8 + bit false * 2 ^ 16
  word_before = word ∙ encode-word false is_block n ∙ omega arith

  word_after : married (f.frame_pointer - 16) ≡ n + bit is_block * 2 ^ 8 + bit true * 2 ^ 16
  word_after =
      let stored : married (f.frame_pointer - 16) ≡ marry_metadata (memory (f.frame_pointer - 16)) =
        ground arith in
      stored ∙ ap marry_metadata word_before ∙ marry-word false is_block n (omega arith)

  single : has_context memory f ≡ false
  unfolding has_context get_metadata
  single =
      ap (λ (w : ℕ). not (bit_and w 0xFF0000 == 0)) word_before
      ∙ ap (λ (v : ℕ). not (v == 0)) (context-flag false is_block n (omega arith))

  is_married : has_context married f ≡ true
  unfolding has_context get_metadata
  is_married =
      ap (λ (w : ℕ). not (bit_and w 0xFF0000 == 0)) word_after
      ∙ ap (λ (v : ℕ). not (v == 0)) (context-flag true is_block n (omega arith))

  arguments_before : get_argument_count memory f ≡ n
  unfolding get_argument_count get_metadata
  arguments_before =
      ap (λ (w : ℕ). bit_and w 0xFF) word_before ∙ bit_and-mask 8 _ ∙ omega (arith, bit-le is_block)

  arguments_after : get_argument_count married f ≡ n
  unfolding get_argument_count get_metadata
  arguments_after =
      ap (λ (w : ℕ). bit_and w 0xFF) word_after ∙ bit_and-mask 8 _ ∙ omega (arith, bit-le is_block)

  words-kept : (a : ℕ) → a ≢ f.frame_pointer - 24 → a ≢ f.frame_pointer - 16 → married a ≡ memory a
  words-kept a ne ne' = ground arith

  abbrev created : Context
  created = create large_context_slots

  abbrev argument_slots : Words
  argument_slots = with_arguments memory f n n created.slots

  abbrev held_slots : Words
  held_slots = with_temporaries married k (f.frame_pointer - 40) n argument_slots

  abbrev first_context : Context
  first_context = record created {
    sender = f.frame_pointer + 1;
    pc = get_prev_frame_pointer memory f + 1;
    stackp = f.stack_pointer + 1;
    method = memory (f.frame_pointer - 8);
    closure_or_nil =
        if is_block_activation memory f then memory (f.frame_pointer + 16 + n * 8) else nil_object;
    receiver = memory (f.frame_pointer - 32);
    argument_count = encode_small_integer (pos n);
    slots = argument_slots;
  }

  abbrev last_context : Context
  last_context = record first_context { stackp = f.stack_pointer + 1; slots = held_slots }

  spouse-ok : spouse nil_object fresh create heap memory f ≡ ok first_context
  unfolding spouse spouse_slot_count get_argument_at_reverse_index
  spouse-ok =
      rw
        (
          needs_large_frame_always (heap (memory (f.frame_pointer - 8) + 8)),
          arguments_before,
          copy_arguments-ok memory f created.slot_count n n created.slots
              (omega (arith, sized large_context_slots)),
        )
        refl

  argument-held : (i : ℕ) → i < n → held_slots i ≡ memory (f.frame_pointer + 16 + (n - i - 1) * 8)
  argument-held i lt =
      let is_argument : ltb i n ≡ true = ground arith in
      with_temporaries-keeps married k n i (f.frame_pointer - 40) argument_slots lt
      ∙ with_arguments-at memory f n n i created.slots
      ∙ rw is_argument refl

  variable-held : (j : ℕ) → j < k → held_slots (n + j) ≡ memory (f.frame_pointer - 40 - j * 8)
  variable-held j lt =
      with_temporaries-copied married k n j (f.frame_pointer - 40) argument_slots lt
      ∙ words-kept (f.frame_pointer - 40 - j * 8) (omega arith) (omega arith)

  temporaries-held :
      (i : ℕ) → i < n + k → last_context.slots i ≡ memory (temporary_address f.frame_pointer n i)
  unfolding temporary_address
  temporaries-held i lt = elim (Bool-cases (ltb i n)) [
    | inl below ↦ argument-held i (ground arith) ∙ rw below refl
    | inr above ↦
        ap held_slots (ground arith) ∙ variable-held (i - n) (ground arith) ∙ rw above refl
  ]

  held : IsSpouse memory f n k last_context
  held = record { sender = refl; receiver = refl; method = refl; temporaries = temporaries-held }

  abbrev during : Contexts → Contexts
  during contexts = set_context contexts fresh first_context

  abbrev later : Contexts → Contexts
  later contexts = set_context (during contexts) fresh last_context

  marry-ok :
      (contexts : Contexts)
      → marry_frame nil_object fresh create heap memory f contexts ≡ ok (married, during contexts)
  unfolding marry_frame
  marry-ok contexts = rw (single, spouse-ok, is_married) refl

  in_frame : married (f.frame_pointer - 24) ≡ fresh
  in_frame = ground arith

  abbrev rounds : ℕ
  rounds = (f.frame_pointer - 40) / 8 + 1

  update-ok :
      (contexts : Contexts)
      → fresh ≢ nil_object
      → n + k ≤ large_context_slots
      → update_married_spouse_state nil_object married f (during contexts) ≡ ok (later contexts)
  unfolding update_married_spouse_state
  update-ok contexts fresh_context fits =
      let no_nil : (fresh == nil_object) ≡ false = ground arith in
      let itself : (fresh == fresh) ≡ true = ground arith in
      let copies =
        copy_temporaries-ok married f created.slot_count low k rounds n (f.frame_pointer - 40)
          argument_slots (omega arith) (omega arith) (omega (arith, sized large_context_slots)) in
      rw (is_married, in_frame, no_nil, itself, arguments_after, copies) refl

  update-overrun :
      (contexts : Contexts)
      → fresh ≢ nil_object
      → large_context_slots < n + k
      → update_married_spouse_state nil_object married f (during contexts) ≡ abort memory_corruption
  unfolding update_married_spouse_state
  update-overrun contexts fresh_context over =
      let no_nil : (fresh == nil_object) ≡ false = ground arith in
      let itself : (fresh == fresh) ≡ true = ground arith in
      let overrun =
        copy_temporaries-overrun married f created.slot_count low k rounds n (f.frame_pointer - 40)
          argument_slots (omega arith) (omega arith) (omega (arith, sized large_context_slots))
          (omega (arith, sized large_context_slots)) in
      rw (is_married, in_frame, no_nil, itself, arguments_after, overrun) refl

  held-fresh : (contexts : Contexts) → IsSpouse memory f n k (later contexts fresh)
  held-fresh contexts =
      let itself : true ≡ (fresh == fresh) = ground arith in
      subst
        (λ (b : Bool). IsSpouse memory f n k (if b then last_context else during contexts fresh))
        itself held

  others-kept : (contexts : Contexts) (a : ℕ) → fresh ≢ a → later contexts a ≡ contexts a
  others-kept contexts a ne = let other : (fresh == a) ≡ false = ground arith in rw other refl

  updates :
      (contexts : Contexts)
      → fresh ≢ nil_object
      → Updates nil_object fresh memory f n k married contexts (during contexts)
  updates contexts fresh_context = elim (Bool-cases (leb (n + k) large_context_slots)) [
    | inl fits ↦ inl (
      ground arith,
      later contexts,
      update-ok contexts fresh_context (ground arith),
      held-fresh contexts,
      others-kept contexts,
    )
    | inr over ↦ inr (ground arith, update-overrun contexts fresh_context (ground arith))
  ]

-- A frame with `n` arguments and `k` words below its receiver, which has no context yet, is married by
-- marryFrame, which succeeds: the frame refers to the fresh context, and no other word of the stack
-- has changed but its metadata, which say that it has a context. Where `n + k` is at most 62,
-- updateMarriedSpouseState succeeds too: the sender of the context is the tagged frame pointer, its
-- receiver and method are those of the frame, its slots hold all the temporaries, each under the index
-- under which the interpreter finds it in the frame, and no other context has changed. Where `n + k`
-- is more, it writes past the slots of the context. There are at most 62 arguments; the frame is laid
-- out as an activation leaves it, not at the bottom of the address space; the fresh context is not nil
-- and has as many slots as marryFrame asks for.
pub marry-IsSpouse :
    (nil_object fresh : ℕ) (create : ℕ → Context) (heap memory : Words) (f : StackFrame)
    (is_block : Bool) (n k : ℕ) (contexts : Contexts)
    → ((s : ℕ) → (create s).slot_count ≡ s)
    → n ≤ large_context_slots
    → memory (f.frame_pointer - 16) ≡ encode_frame_meta_data false is_block n
    → f.frame_pointer ≡ f.stack_pointer + 8 * k + 32
    → 8 ≤ f.stack_pointer
    → fresh ≢ nil_object
    → (married : Words) × (during : Contexts) × (marry_frame nil_object fresh create heap memory f
          contexts
        ≡ ok (married, during))
      × (has_context married f ≡ true)
      × (married (f.frame_pointer - 24) ≡ fresh)
      × ((a : ℕ) → a ≢ f.frame_pointer - 24 → a ≢ f.frame_pointer - 16 → married a ≡ memory a)
      × Updates nil_object fresh memory f n k married contexts during
marry-IsSpouse nil_object fresh create heap memory f is_block n k contexts sized small word layout
      low fresh_context =
    (
      married nil_object fresh create heap memory f is_block n k sized small word layout low,
      during nil_object fresh create heap memory f is_block n k sized small word layout low
          contexts,
      marry-ok nil_object fresh create heap memory f is_block n k sized small word layout low
          contexts,
      is_married nil_object fresh create heap memory f is_block n k sized small word layout low,
      in_frame nil_object fresh create heap memory f is_block n k sized small word layout low,
      words-kept nil_object fresh create heap memory f is_block n k sized small word layout low,
      updates nil_object fresh create heap memory f is_block n k sized small word layout low
          contexts fresh_context,
    )
