-- ===== src/Stack/Calls/Temporaries.antt =====
-- The temporaries of vm/StackInterpreter.cpp: the arguments of a method and the variables behind
-- its frame.
use lodtalk.Prelude.{
  ℕ, zero, suc, ◌+◌, ◌-◌, ◌*◌, ◌≤◌, ◌<◌, ◌≡◌, ap, ◌∙◌, arith, ltb, ◌==◌, if◌then◌else◌,
}
use lodtalk.Outcome.{ok}
use lodtalk.ObjectModel.MethodHeader.{get_argument_count, get_temporal_count}
use lodtalk.Stack.Frames.{
  word_size, last_argument_offset, this_context_offset, receiver_offset, first_temp_offset,
}
use lodtalk.Stack.Calls.{
  Machine, store, push, push_nils, push_fixed, push_frame, activate_method_frame,
}
use lodtalk.Stack.Calls.Returns.{
  header_of, push_nils-above, fixed-pointers, nils-room, frame-above, frame-pointers, frame-memory,
  running, activate-running,
}

-- `getTemporaryOffset`, added to the frame pointer.
unfoldable pub temporary_address : ℕ → ℕ → ℕ → ℕ
temporary_address frame_pointer argument_count index =
    if ltb index argument_count
    then frame_pointer + last_argument_offset + (argument_count - index - 1) * word_size
    else frame_pointer - first_temp_offset - (index - argument_count) * word_size

unfoldable pub get_temporary : Machine → ℕ → ℕ
unfolding temporary_address
get_temporary m index = m.memory (temporary_address m.frame_pointer m.argument_count index)

unfoldable pub set_temporary : Machine → ℕ → ℕ → Machine
unfolding temporary_address
set_temporary m index value = record m {
  memory = store m.memory (temporary_address m.frame_pointer m.argument_count index) value;
}

-- `currentReceiver`.
unfoldable pub current_receiver : Machine → ℕ
current_receiver m = m.memory (m.frame_pointer - receiver_offset)

-- A temporary reads back what was stored last, and the stores of other temporaries do not change it,
-- nor do they change the receiver, the context, the metadata, the method, the saved frame pointer or
-- the return address of the frame. The frame pointer leaves room for the two temporaries below it.
pub get-set_temporary :
    (m : Machine) (i j value : ℕ)
    → 40 + 8 * i ≤ m.frame_pointer
    → 40 + 8 * j ≤ m.frame_pointer
    → (get_temporary (set_temporary m i value) j ≡ (if i == j then value else get_temporary m j))
      × ((k : ℕ)
          → k < 6
          → (set_temporary m i value).memory (m.frame_pointer + 8 - k * 8)
            ≡ m.memory (m.frame_pointer + 8 - k * 8))
unfolding get_temporary set_temporary temporary_address
get-set_temporary m i j value room_i room_j = (ground arith, λ k h. ground arith)

push_nils-nil :
    (nil_object n k : ℕ) (m : Machine)
    → 8 * n ≤ m.stack_pointer
    → k < n
    → (push_nils nil_object n m).memory (m.stack_pointer - 8 - k * 8) ≡ nil_object
unfolding push_nils push
push_nils-nil nil_object zero k m room lt = elim lt [ ]
push_nils-nil nil_object (suc n) zero m room lt =
    push_nils-above nil_object n (push m nil_object) (m.stack_pointer - 8 - 0 * 8) (omega arith)
      (omega arith)
    ∙ ground arith
push_nils-nil nil_object (suc n) (suc k) m room lt =
    ap (push_nils nil_object n (push m nil_object)).memory (omega arith)
    ∙ push_nils-nil nil_object n k (push m nil_object) (omega arith) (omega arith)

fixed-receiver :
    (nil_object new_method n : ℕ) (m : Machine)
    → 40 ≤ m.stack_pointer
    → ((push_fixed nil_object new_method n m).memory (m.stack_pointer - 32) ≡ nil_object)
      × ((push_fixed nil_object new_method n m).memory (m.stack_pointer - 40)
          ≡ m.memory (m.stack_pointer + (1 + n) * 8))
unfolding push_fixed push
fixed-receiver nil_object new_method n m room = (ground arith, ground arith)

-- What an activated method finds on the stack, in terms of the caller `m`.
pub record IsEntered (nil_object arguments temporals : ℕ) (m c : Machine) : Type 0 where
  pub receiver : current_receiver c ≡ m.memory (m.stack_pointer + (1 + arguments) * 8)
  pub no_context : c.memory (c.frame_pointer - this_context_offset) ≡ nil_object
  pub argument :
      (i : ℕ) → i < arguments → get_temporary c i ≡ m.memory (m.stack_pointer + (arguments - i) * 8)
  pub variable : (i : ℕ) → i < temporals → get_temporary c (arguments + i) ≡ nil_object

module _ (nil_object new_method : ℕ) (m : Machine)
    (room : 40 + 8 * get_temporal_count (header_of m new_method) ≤ m.stack_pointer) where
  abbrev c : Machine
  c = running nil_object new_method m room

  abbrev arguments : ℕ
  arguments = get_argument_count (header_of m new_method)

  abbrev temporals : ℕ
  temporals = get_temporal_count (header_of m new_method)

  base : c.frame_pointer ≡ m.stack_pointer - 8
  base = (frame-pointers nil_object new_method m room).0

  below-receiver :
      c.memory (m.stack_pointer - 40) ≡ m.memory (m.stack_pointer + (1 + arguments) * 8)
  below-receiver =
      frame-above nil_object new_method m room (m.stack_pointer - 40) (omega arith)
      ∙ (fixed-receiver nil_object new_method arguments m (omega arith)).1

  context-nil : c.memory (m.stack_pointer - 32) ≡ nil_object
  context-nil =
      frame-above nil_object new_method m room (m.stack_pointer - 32) (omega arith)
      ∙ (fixed-receiver nil_object new_method arguments m (omega arith)).0

  argument-pushed :
      (i : ℕ) → i < arguments → get_temporary c i ≡ m.memory (m.stack_pointer + (arguments - i) * 8)
  unfolding get_temporary temporary_address
  argument-pushed i lt =
      let address : temporary_address c.frame_pointer arguments i
          ≡ m.stack_pointer + (arguments - i) * 8 =
        ground (arith, base) in
      let (_, _, _, above) = frame-memory nil_object new_method m room in
      ap c.memory address ∙ above (m.stack_pointer + (arguments - i) * 8) (omega arith)

  variable-nil : (i : ℕ) → i < temporals → get_temporary c (arguments + i) ≡ nil_object
  unfolding get_temporary temporary_address push_frame
  variable-nil i lt =
      let (_, _, sp) = fixed-pointers nil_object new_method arguments m (omega arith) in
      let address : temporary_address c.frame_pointer arguments (arguments + i)
          ≡ (push_fixed nil_object new_method arguments m).stack_pointer - 8 - i * 8 =
        ground (arith, base, sp) in
      ap c.memory address
      ∙ push_nils-nil nil_object temporals i (push_fixed nil_object new_method arguments m)
          (nils-room nil_object new_method m room) lt

  entered : IsEntered nil_object arguments temporals m c
  unfolding current_receiver
  entered = record {
    receiver = ap c.memory (omega (arith, base)) ∙ below-receiver;
    no_context = ap c.memory (omega (arith, base)) ∙ context-nil;
    argument = argument-pushed;
    variable = variable-nil;
  }

-- activateMethodFrame, from a caller `m` that has pushed the receiver, the arguments in order and the
-- return address, gives a machine in which currentReceiver is that receiver, the temporaries from 0 on
-- are those arguments, the first being the one pushed first, the temporaries behind them are nil, as
-- many as the header of the method says, and the context of the frame is nil. There is room for the
-- frame above the limit of the page, and the safe point does not collect.
pub activate-IsEntered :
    (nil_object new_method stack_limit : ℕ) (safe_point stack_overflow : Machine → Machine)
    (m : Machine)
    → stack_limit + 40 + 8 * get_temporal_count (header_of m new_method) ≤ m.stack_pointer
    → safe_point (push_frame nil_object new_method m) ≡ push_frame nil_object new_method m
    → (c : Machine) × (activate_method_frame nil_object safe_point stack_overflow stack_limit
          new_method m
        ≡ ok c)
      × IsEntered nil_object
          (get_argument_count (header_of m new_method))
          (get_temporal_count (header_of m new_method))
          m
          c
activate-IsEntered nil_object new_method stack_limit safe_point stack_overflow m low quiet =
    let room : 40 + 8 * get_temporal_count (header_of m new_method) ≤ m.stack_pointer =
      omega arith in
    (
      running nil_object new_method m room,
      activate-running nil_object new_method m room safe_point stack_overflow stack_limit quiet low,
      entered nil_object new_method m room,
    )
