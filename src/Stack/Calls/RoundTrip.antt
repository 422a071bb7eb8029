-- ===== src/Stack/Calls/RoundTrip.antt =====
-- An activation and a return of vm/StackInterpreter.cpp together.
use lodtalk.Prelude.{
  ℕ, ◌+◌, ◌-◌, ◌*◌, ◌≤◌, ◌<◌, ◌≡◌, ◌≢◌, refl, sym, ap, ◌∙◌, arith, Bool, false, ◌==◌, if◌then◌else◌,
}
use lodtalk.Outcome.{Outcome, ok}
use lodtalk.ObjectModel.MethodHeader.{get_argument_count, get_temporal_count}
use lodtalk.Stack.Frames.{decode_frame_meta_data}
use lodtalk.Stack.Calls.{
  Machine, push_frame, activate_method_frame, first_pc_offset, local_return_value,
}
use lodtalk.Stack.Calls.Returns.{
  header_of, frame-pointers, frame-memory, running, activate-running, IsReturned,
  local_return-IsReturned,
}

-- The called machine, in terms of the caller `m`.
pub record IsActivated (new_method : ℕ) (m c : Machine) : Type 0 where
  pub base : c.frame_pointer ≡ m.stack_pointer - 8
  pub count : c.argument_count ≡ get_argument_count (header_of m new_method)
  pub code : c.method ≡ new_method
  pub start : c.pc ≡ first_pc_offset (header_of m new_method)
  pub method_frame : c.is_block ≡ false

-- The machine after the return, in terms of the caller `m`, of the machine `r` before the return and
-- of the number of arguments.
pub record IsBack (n value : ℕ) (m r s : Machine) : Type 0 where
  pub caller : s.frame_pointer ≡ m.frame_pointer
  pub resumes : s.pc ≡ m.memory m.stack_pointer
  pub top : s.stack_pointer ≡ m.stack_pointer + 8 + n * 8
  pub words :
      (a : ℕ) → s.memory a ≡ (if m.stack_pointer + 8 + n * 8 == a then value else r.memory a)
  pub fields :
      ◌≡◌ {A = Bool × Bool × ℕ}
        (s.has_context, s.is_block, s.argument_count)
        (decode_frame_meta_data (m.memory (m.frame_pointer - 16)))
  pub owner : s.method ≡ m.memory (m.frame_pointer - 8)

IsReturned-IsBack :
    {nil_object : ℕ} {base_return : ℕ → Machine → Outcome Machine} {n : ℕ}
    → (value : ℕ) (m r s : Machine) → r.memory r.frame_pointer ≡ m.frame_pointer
    → r.frame_pointer + 16 + r.argument_count * 8 ≡ m.stack_pointer + 8 + n * 8
    → m.stack_pointer + 8 * n + 32 ≤ m.frame_pointer
    → r.memory (r.frame_pointer + 8) ≡ m.memory m.stack_pointer
    → ((a : ℕ) → m.stack_pointer ≤ a → r.memory a ≡ m.memory a)
    → IsReturned nil_object base_return value r s
    → IsBack n value m r s
IsReturned-IsBack {n} value m r s caller place inside next same back =
    let words : (a : ℕ)
        → s.memory a ≡ (if m.stack_pointer + 8 + n * 8 == a then value else r.memory a) =
      λ a. back.words a ∙ ap (λ (p : ℕ). if p == a then value else r.memory a) place in
    let fp = back.caller ∙ caller in
    let same_word : (a : ℕ) → m.stack_pointer + 8 + n * 8 < a → s.memory a ≡ m.memory a = λ a h.
      (let other : (m.stack_pointer + 8 + n * 8 == a) ≡ false = ground arith in
        words a
        ∙ ap (λ (b : Bool). if b then value else r.memory a) other
        ∙ same a (omega arith)) in
    record {
      caller = fp;
      resumes = back.next_pc ∙ next;
      top = back.top ∙ place;
      words = words;
      fields =
          back.fields
          ∙ ap (λ (p : ℕ). decode_frame_meta_data (s.memory (p - 16))) fp
          ∙ ap decode_frame_meta_data (same_word (m.frame_pointer - 16) (omega arith));
      owner =
          back.owner
          ∙ ap (λ (p : ℕ). s.memory (p - 8)) fp
          ∙ same_word (m.frame_pointer - 8) (omega arith);
    }

-- A method that is activated, runs and returns. `m` is the caller after it has pushed the receiver,
-- the arguments and the return address. activateMethodFrame succeeds: the new frame is at the old
-- stack pointer less 8, the registers have the method, its number of arguments and its first
-- bytecode. Let `r` be any machine in which the method returns with localReturnValue: it has that
-- frame pointer and number of arguments, and the stack is as it was from the new frame pointer up.
-- Then the return succeeds, whether or not the frame was married to a context: the frame pointer, pc,
-- method and metadata fields are those of the caller, the value stands in the place of the receiver,
-- which is now the top of the stack, and no other word of the stack has changed. There is room for
-- the frame above the limit of the page; the caller has a frame that lies above the receiver; and the
-- safe point does not collect.
pub activate-return :
    (nil_object new_method value stack_limit : ℕ) (safe_point stack_overflow : Machine → Machine)
    (base_return : ℕ → Machine → Outcome Machine) (m r : Machine)
    → stack_limit + 40 + 8 * get_temporal_count (header_of m new_method) ≤ m.stack_pointer
    → m.frame_pointer ≢ 0
    → m.stack_pointer + 8 * get_argument_count (header_of m new_method) + 32 ≤ m.frame_pointer
    → safe_point (push_frame nil_object new_method m) ≡ push_frame nil_object new_method m
    → r.frame_pointer ≡ m.stack_pointer - 8
    → r.argument_count ≡ get_argument_count (header_of m new_method)
    → ((a : ℕ)
        → m.stack_pointer - 8 ≤ a
        → r.memory a ≡ (push_frame nil_object new_method m).memory a)
    → (c : Machine) × (activate_method_frame nil_object safe_point stack_overflow stack_limit
          new_method m
        ≡ ok c)
      × IsActivated new_method m c
      × (s : Machine) × (local_return_value nil_object base_return value r ≡ ok s)
      × IsBack (get_argument_count (header_of m new_method)) value m r s
activate-return nil_object new_method value stack_limit safe_point stack_overflow base_return m r
      low some_caller inside quiet base count kept =
    let room : 40 + 8 * get_temporal_count (header_of m new_method) ≤ m.stack_pointer =
      omega arith in
    let (fp, heap, sp) = frame-pointers nil_object new_method m room in
    let (saved, _, _, above) = frame-memory nil_object new_method m room in
    let caller : r.memory r.frame_pointer ≡ m.frame_pointer =
      ap (λ (a : ℕ). r.memory a) base ∙ kept (m.stack_pointer - 8) (omega arith) ∙ saved in
    let same : (a : ℕ) → m.stack_pointer ≤ a → r.memory a ≡ m.memory a =
      λ a h. kept a (omega arith) ∙ above a h in
    let next : r.memory (r.frame_pointer + 8) ≡ m.memory m.stack_pointer =
      ap r.memory (omega (arith, base)) ∙ same m.stack_pointer (omega arith) in
    let (s, done, back) =
      local_return-IsReturned nil_object base_return value r (λ e. some_caller (sym caller ∙ e)) in
    let place : r.frame_pointer + 16 + r.argument_count * 8
        ≡ m.stack_pointer + 8 + get_argument_count (header_of m new_method) * 8 =
      omega (arith, base, count) in
    (
      running nil_object new_method m room,
      activate-running nil_object new_method m room safe_point stack_overflow stack_limit quiet low,
      record { base = fp; count = refl; code = refl; start = refl; method_frame = refl },
      s,
      done,
      IsReturned-IsBack value m r s caller place inside next same back,
    )
