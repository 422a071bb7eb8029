-- ===== src/Stack/Marriage.antt =====
-- Marriage of a frame and a context: `marryFrame` and `updateMarriedSpouseState` of
-- vm/StackMemory.cpp.
pub mod Copies
pub mod Spouse
use Prim.Native.Nat.{bit_and}
use lodtalk.Prelude.{
  ℕ, zero, suc, ◌+◌, ◌-◌, ◌*◌, ◌/◌, ◌^◌, Bool, not, ◌||◌, ltb, ◌==◌, if◌then◌else◌,
}
use lodtalk.Prelude.Int.{pos}
use lodtalk.Outcome.{Outcome, ok, abort, out_of_fuel, assertion, memory_corruption, ◌>>=◌}
use lodtalk.ObjectModel.MethodHeader.{needs_large_frame}
use lodtalk.ObjectModel.Oop.{encode_small_integer}
use lodtalk.Stack.Frames.{
  Words, StackFrame, word_size, last_argument_offset, method_offset, metadata_offset,
  this_context_offset, receiver_offset, first_temp_offset, get_metadata, get_argument_count,
  get_prev_frame_pointer, marry_metadata,
}
use lodtalk.Stack.Calls.{store}

pub record Context : Type 0 where
  pub sender : ℕ
  pub pc : ℕ
  pub stackp : ℕ
  pub method : ℕ
  pub closure_or_nil : ℕ
  pub receiver : ℕ
  pub argument_count : ℕ
  -- `data`, and how many of them the object has.
  pub slots : Words
  pub slot_count : ℕ

-- The contexts by their addresses.
abbrev pub Contexts : Type 0
Contexts = ℕ → Context

abbrev pub set_context : Contexts → ℕ → Context → Contexts
set_context contexts address context other = if address == other then context else contexts other

abbrev pub large_context_slots : ℕ
large_context_slots = 62

abbrev pub small_context_slots : ℕ
small_context_slots = 22

-- `data[i] = value`. Past the slots is other memory.
unfoldable pub write_slot : ℕ → Words → ℕ → ℕ → Outcome Words
write_slot slot_count slots i value =
    if ltb i slot_count then ok (store slots i value) else abort memory_corruption

module _ (memory : Words) (f : StackFrame) where
  unfoldable pub is_block_activation : Bool
  unfolding get_metadata
  is_block_activation = not (bit_and (get_metadata memory f) 0xFF00 == 0)

  unfoldable pub has_context : Bool
  unfolding get_metadata
  has_context = not (bit_and (get_metadata memory f) 0xFF0000 == 0)

  unfoldable pub get_argument_at_reverse_index : ℕ → ℕ
  get_argument_at_reverse_index index =
      memory (f.frame_pointer + last_argument_offset + index * word_size)

  -- The first rounds of the loop that copies the arguments.
  unfoldable pub copy_arguments : ℕ → ℕ → ℕ → Words → Outcome Words
  unfolding get_argument_at_reverse_index
  copy_arguments slot_count argument_count zero slots = ok slots
  copy_arguments slot_count argument_count (suc i) slots = do
    before ← copy_arguments slot_count argument_count i slots
    write_slot slot_count before i (get_argument_at_reverse_index (argument_count - i - 1))

  -- The loop that copies the temporaries.
  unfoldable pub copy_temporaries : ℕ → ℕ → ℕ → ℕ → Words → Outcome Words
  copy_temporaries slot_count zero current_temporary index slots = out_of_fuel
  copy_temporaries slot_count (suc fuel) current_temporary index slots =
      let rest = write_slot slot_count slots index (memory current_temporary) >>= λ written.
      copy_temporaries slot_count fuel (current_temporary - word_size) (index + 1) written in
      if ltb current_temporary f.stack_pointer then ok slots else rest

-- The words of the stack with the context in the frame.
abbrev pub married_words : ℕ → Words → StackFrame → Words
married_words fresh memory f =
    let in_frame = store memory (f.frame_pointer - this_context_offset) fresh in
    store in_frame (f.frame_pointer - metadata_offset)
      (marry_metadata (in_frame (f.frame_pointer - metadata_offset)))

-- `fresh` is the address of the context that `Context::create` returns, and `create` its contents by
-- its number of slots; `heap` has the words of the objects.
module _ (nil_object fresh : ℕ) (create : ℕ → Context) (heap memory : Words) (f : StackFrame) where
  unfoldable pub spouse_slot_count : ℕ
  spouse_slot_count =
      if needs_large_frame (heap (memory (f.frame_pointer - method_offset) + word_size))
      then large_context_slots
      else small_context_slots

  unfoldable pub spouse : Outcome Context
  unfolding get_prev_frame_pointer
  spouse =
      let n = get_argument_count memory f in
      let context = create spouse_slot_count in
      copy_arguments memory f context.slot_count n n context.slots >>= λ copied.
      ok (record context {
        sender = f.frame_pointer + 1;
        pc = get_prev_frame_pointer memory f + 1;
        stackp = f.stack_pointer + 1;
        method = memory (f.frame_pointer - method_offset);
        closure_or_nil =
            if is_block_activation memory f
            then get_argument_at_reverse_index memory f n
            else nil_object;
        receiver = memory (f.frame_pointer - receiver_offset);
        argument_count = encode_small_integer (pos n);
        slots = copied;
      })

  unfoldable pub marry_frame : Contexts → Outcome (Words × Contexts)
  marry_frame contexts = if has_context memory f then abort assertion else (do
    context ← spouse
    (if has_context (married_words fresh memory f) f
        then ok (married_words fresh memory f, set_context contexts fresh context)
        else abort assertion))

unfoldable pub update_married_spouse_state : ℕ → Words → StackFrame → Contexts → Outcome Contexts
update_married_spouse_state nil_object memory f contexts =
    let address = memory (f.frame_pointer - this_context_offset) in
    let context = contexts address in
    let rounds = (f.frame_pointer - first_temp_offset) / word_size + 1 in
    let updated =
      copy_temporaries memory f context.slot_count rounds (f.frame_pointer - first_temp_offset)
        (get_argument_count memory f) context.slots
      >>= λ copied. ok (
          set_context contexts address
            (record context { stackp = f.stack_pointer + 1; slots = copied })) in
    if not (has_context memory f) || (address == nil_object) then abort assertion else updated
