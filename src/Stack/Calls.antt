-- ===== src/Stack/Calls.antt =====
-- How vm/StackInterpreter.cpp activates a method and returns from it.
pub mod Returns
pub mod RoundTrip
pub mod Temporaries
use lodtalk.Prelude.{ℕ, zero, suc, ◌+◌, ◌-◌, ◌*◌, Bool, false, ltb, ◌==◌, if◌then◌else◌}
use lodtalk.Outcome.{Outcome, ok, abort, interpreter_error, ◌>>=◌}
use lodtalk.ObjectModel.MethodHeader.{get_argument_count, get_temporal_count, get_literal_count}
use lodtalk.ObjectModel.Oop.{encode_small_integer}
use lodtalk.Prelude.Int.{pos}
use lodtalk.Stack.Frames.{
  Words, word_size, metadata_offset, method_offset, this_context_offset, encode_frame_meta_data,
  decode_frame_meta_data,
}

-- The words of the stack and of the objects in the heap, the pointers of the stack, and the
-- registers of the interpreter that belong to a frame.
pub record Machine : Type 0 where
  pub memory : Words
  pub heap : Words
  pub frame_pointer : ℕ
  pub stack_pointer : ℕ
  pub pc : ℕ
  pub has_context : Bool
  pub is_block : Bool
  pub argument_count : ℕ
  pub method : ℕ

abbrev pub store : Words → ℕ → ℕ → Words
store f a v b = if a == b then v else f b

-- `pushOop`, `pushPointer` and `pushUInt`.
unfoldable pub push : Machine → ℕ → Machine
push m v = record m {
  stack_pointer = m.stack_pointer - word_size;
  memory = store m.memory (m.stack_pointer - word_size) v;
}

-- The loop that pushes the nil temporals.
unfoldable pub push_nils : ℕ → ℕ → Machine → Machine
push_nils nil_object zero m = m
push_nils nil_object (suc n) m = push_nils nil_object n (push m nil_object)

unfoldable pub fetch_frame_data : Machine → Outcome Machine
fetch_frame_data m =
    if m.frame_pointer == 0
    then abort interpreter_error
    else (let (context, block, arguments) =
          decode_frame_meta_data (m.memory (m.frame_pointer - metadata_offset)) in
        ok (record m {
          has_context = context;
          is_block = block;
          argument_count = arguments;
          method = m.memory (m.frame_pointer - method_offset);
        }))

-- `getFirstPCOffset`: past the header of the object, the method header and the literals.
unfoldable pub first_pc_offset : ℕ → ℕ
first_pc_offset header = word_size + (get_literal_count header + 1) * word_size

-- The words of a frame that every method has.
unfoldable pub push_fixed : ℕ → ℕ → ℕ → Machine → Machine
push_fixed nil_object new_method num_arguments m =
    let receiver = m.memory (m.stack_pointer + (1 + num_arguments) * word_size) in
    let saved = push m m.frame_pointer in
    let framed = record saved { frame_pointer = saved.stack_pointer } in
    let with_method = push framed new_method in
    let with_metadata = push with_method (encode_frame_meta_data false false num_arguments) in
    push (push with_metadata nil_object) receiver

-- The frame of a method, before the safe point.
unfoldable pub push_frame : ℕ → ℕ → Machine → Machine
push_frame nil_object new_method m =
    let header = m.heap (new_method + word_size) in
    push_nils nil_object (get_temporal_count header)
      (push_fixed nil_object new_method (get_argument_count header) m)

-- `safe_point` is `garbageCollectionSafePoint`, and `stack_overflow` what happens below the limit
-- of the page. The prefetch of the next opcode is left out.
module _ (nil_object : ℕ) where
  unfoldable pub activate_method_frame :
      (Machine → Machine) → (Machine → Machine) → ℕ → ℕ → Machine → Outcome Machine
  activate_method_frame safe_point stack_overflow stack_limit new_method m = do
    fetched ← fetch_frame_data (safe_point (push_frame nil_object new_method m))
    let started = record fetched { pc = first_pc_offset (fetched.heap (new_method + word_size)) }
    (if ltb started.stack_pointer stack_limit
        then fetch_frame_data (stack_overflow started)
        else ok started)

  -- `sender`, `pc` and `stackp` are the first fields of a context.
  unfoldable pub widow_context : Machine → ℕ → Machine
  widow_context m context = record m {
    heap =
        store (store (store m.heap (context + 8) nil_object) (context + 16) nil_object)
          (context + 24) (encode_small_integer (pos 0));
  }

  -- The context of the current frame, if it has one, is widowed.
  unfoldable pub widow_current : Machine → Machine
  widow_current m =
      if (decode_frame_meta_data (m.memory (m.frame_pointer - metadata_offset))).0
      then widow_context m (m.memory (m.frame_pointer - this_context_offset))
      else m

  -- `base_return` is `baseReturnValue`, for the lowest frame of a page.
  unfoldable pub local_return_value :
      (ℕ → Machine → Outcome Machine) → ℕ → Machine → Outcome Machine
  local_return_value base_return value m =
      if m.memory m.frame_pointer == 0
      then base_return value m
      else fetch_frame_data (
          push
            (record (widow_current m) {
              frame_pointer = m.memory m.frame_pointer;
              pc = m.memory (m.frame_pointer + word_size);
              stack_pointer = m.frame_pointer + 2 * word_size + (m.argument_count + 1) * word_size;
            })
            value)
