-- ===== src/Stack/Tests.antt =====
-- The stack at concrete inputs: the receiver and one argument, called with one temporary.
use lodtalk.Prelude.{ℕ, ◌+◌, ◌^◌, ◌≡◌, ◌≢◌, refl, arith, true, false, ◌==◌, if◌then◌else◌}
use lodtalk.Outcome.{Outcome, ok, abort, interpreter_error}
use lodtalk.ObjectModel.MethodHeader.{get_argument_count, get_temporal_count}
use lodtalk.Stack.Frames.{
  Words, StackFrame, encode_frame_meta_data, decode_frame_meta_data, marry_metadata,
  get_end_pointer, oop_elements,
}
use lodtalk.Stack.Metadata.{decode-encode_frame_meta_data}
use lodtalk.Stack.Elements.{visits, is_oop_of_frame, oop_elements-once}
use lodtalk.Stack.Calls.{
  Machine, push, push_nils, push_fixed, push_frame, activate_method_frame, local_return_value,
}
use lodtalk.Stack.Marriage.{Context, Contexts, has_context, marry_frame}
use lodtalk.Stack.Marriage.Spouse.{Updates, marry-IsSpouse}
use lodtalk.Stack.Calls.RoundTrip.{IsActivated, IsBack, activate-return}
use lodtalk.Stack.Calls.Temporaries.{IsEntered, activate-IsEntered}

decode-encode_frame_meta_data_example :
    (decode_frame_meta_data (encode_frame_meta_data false true 258) ≡ (false, true, 2))
    × (decode_frame_meta_data (marry_metadata (encode_frame_meta_data false true 258))
        ≡ (true, true, 2))
decode-encode_frame_meta_data_example = decode-encode_frame_meta_data false true 258

abbrev memory : Words
memory a = if a == 1000 then 77 else (if a == 1984 then 1 else (if a == 1992 then 304 else 3))

abbrev frame : StackFrame
frame = record { frame_pointer = 2000; stack_pointer = 1960 }

oop_elements-once_example :
    visits (oop_elements memory frame) 1968
    ≡ (if is_oop_of_frame (get_end_pointer memory frame) frame 1968 then 1 else 0)
oop_elements-once_example = oop_elements-once memory frame 2 1968 refl

-- The header of the method at 504.
abbrev header : ℕ
header = 2 ^ 25 + 2 ^ 19

abbrev caller : Machine
caller = record {
  memory = memory;
  heap = λ a. if a == 512 then header else 0;
  frame_pointer = 2000;
  stack_pointer = 1000;
  pc = 40;
  has_context = false;
  is_block = false;
  argument_count = 1;
  method = 304;
}

abbrev no_base_return : ℕ → Machine → Outcome Machine
no_base_return value m = abort interpreter_error

abbrev before_return : Machine
before_return = record (push_frame 16 504 caller) { argument_count = 1 }

activate-return_example :
    (c : Machine) × (activate_method_frame 16 (λ m. m) (λ m. m) 100 504 caller ≡ ok c)
    × IsActivated 504 caller c
    × (s : Machine) × (local_return_value 16 no_base_return 99 before_return ≡ ok s)
    × IsBack 1 99 caller before_return s
unfolding get_temporal_count get_argument_count push_frame push_nils push push_fixed
activate-return_example =
    activate-return 16 504 99 100 (λ m. m) (λ m. m) no_base_return caller before_return
      (omega arith) (omega arith) (omega arith) refl refl refl (λ a h. refl)

activate-IsEntered_example :
    (c : Machine) × (activate_method_frame 16 (λ m. m) (λ m. m) 100 504 caller ≡ ok c)
    × IsEntered 16 1 1 caller c
unfolding get_temporal_count get_argument_count
activate-IsEntered_example =
    activate-IsEntered 16 504 100 (λ m. m) (λ m. m) caller (omega arith) refl

abbrev blank : Context
blank = record {
  sender = 16;
  pc = 16;
  stackp = 16;
  method = 16;
  closure_or_nil = 16;
  receiver = 16;
  argument_count = 16;
  slots = λ _. 16;
  slot_count = 22;
}

abbrev context_of : ℕ → Context
context_of n = record blank { slot_count = n }

marry-IsSpouse_example :
    (married : Words) × (during : Contexts) × (marry_frame 16 8000 context_of
        (λ _. 0)
        memory
        frame
        (λ _. blank)
      ≡ ok (married, during))
    × (has_context married frame ≡ true)
    × (married 1976 ≡ 8000)
    × ((a : ℕ) → a ≢ 1976 → a ≢ 1984 → married a ≡ memory a)
    × Updates 16 8000 memory frame 1 1 married (λ _. blank) during
unfolding encode_frame_meta_data
marry-IsSpouse_example =
    marry-IsSpouse 16 8000 context_of (λ _. 0) memory frame false 1 1 (λ _. blank) (λ s. refl)
      (omega arith) refl refl (omega arith) (omega arith)
