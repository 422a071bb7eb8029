-- ===== src/Stack/Calls/Returns.antt =====
-- A return of vm/StackInterpreter.cpp leads back to the frame that the method was activated from.
use lodtalk.Prelude.{
  ℕ, zero, suc, ◌+◌, ◌-◌, ◌*◌, ◌/◌, ◌^◌, ◌≤◌, ◌<◌, ◌≡◌, ◌≢◌, refl, ap, ◌∙◌, arith, false, ltb, ◌==◌,
  if◌then◌else◌, Bool-cases, inl, inr,
}
use lodtalk.Prelude.Bits.{bit_and-mask}
use lodtalk.Outcome.{Outcome, ok}
use lodtalk.ObjectModel.MethodHeader.{get_argument_count, get_temporal_count}
use lodtalk.Stack.Frames.{encode_frame_meta_data, decode_frame_meta_data}
use lodtalk.Stack.Metadata.{decode-encode_frame_meta_data}
use lodtalk.Stack.Calls.{
  Machine, store, push, push_nils, push_fixed, fetch_frame_data, first_pc_offset, push_frame,
  activate_method_frame, widow_context, widow_current, local_return_value,
}

-- The nil temporals are written below the stack pointer, and change nothing else.
pub push_nils-keeps :
    (nil_object n : ℕ) (m : Machine)
    → 8 * n ≤ m.stack_pointer
    → ((push_nils nil_object n m).frame_pointer ≡ m.frame_pointer)
      × ((push_nils nil_object n m).heap ≡ m.heap)
      × ((push_nils nil_object n m).stack_pointer ≡ m.stack_pointer - 8 * n)
unfolding push_nils push
push_nils-keeps nil_object zero m h = (refl, refl, omega arith)
push_nils-keeps nil_object (suc n) m h =
    let (fp, same, sp) = push_nils-keeps nil_object n (push m nil_object) (omega arith) in
    (fp, same, omega (arith, sp))

pub push_nils-above :
    (nil_object n : ℕ) (m : Machine) (a : ℕ)
    → 8 * n ≤ m.stack_pointer
    → m.stack_pointer ≤ a
    → (push_nils nil_object n m).memory a ≡ m.memory a
unfolding push_nils push
push_nils-above nil_object zero m a h le = refl
push_nils-above nil_object (suc n) m a h le =
    push_nils-above nil_object n (push m nil_object) a (omega arith) (omega arith) ∙ ground arith

-- The counts of the header of a method.
abbrev pub header_of : Machine → ℕ → ℕ
header_of m new_method = m.heap (new_method + 8)

pub arguments-lt : (header : ℕ) → get_argument_count header < 16
unfolding get_argument_count
arguments-lt header = omega (arith, bit_and-mask 4 (header / 2 ^ 25))

-- The fixed words of a new frame.
module _ (nil_object new_method n : ℕ) (m : Machine) (room : 40 ≤ m.stack_pointer) where
  abbrev pub fixed : Machine
  fixed = push_fixed nil_object new_method n m

  pub fixed-pointers :
      (fixed.frame_pointer ≡ m.stack_pointer - 8)
      × (fixed.heap ≡ m.heap)
      × (fixed.stack_pointer ≡ m.stack_pointer - 40)
  unfolding push_fixed push
  fixed-pointers = (refl, refl, omega arith)

  fixed-memory :
      (fixed.memory (m.stack_pointer - 8) ≡ m.frame_pointer)
      × (fixed.memory (m.stack_pointer - 16) ≡ new_method)
      × (fixed.memory (m.stack_pointer - 24) ≡ encode_frame_meta_data false false n)
  unfolding push_fixed push
  fixed-memory = (ground arith, ground arith, ground arith)

  fixed-above : (a : ℕ) → m.stack_pointer ≤ a → fixed.memory a ≡ m.memory a
  unfolding push_fixed push
  fixed-above a h = ground arith

module _ (nil_object new_method : ℕ) (m : Machine)
    (room : 40 + 8 * get_temporal_count (header_of m new_method) ≤ m.stack_pointer) where
  abbrev pub frame : Machine
  frame = push_frame nil_object new_method m

  abbrev pub counts : ℕ
  counts = get_argument_count (header_of m new_method)

  pub nils-room :
      8 * get_temporal_count (header_of m new_method)
      ≤ (push_fixed nil_object new_method counts m).stack_pointer
  nils-room = omega (arith, fixed-pointers nil_object new_method counts m (omega arith))

  pub frame-pointers :
      (frame.frame_pointer ≡ m.stack_pointer - 8)
      × (frame.heap ≡ m.heap)
      × (frame.stack_pointer
          ≡ m.stack_pointer - (40 + 8 * get_temporal_count (header_of m new_method)))
  unfolding push_frame
  frame-pointers =
      let (fp, heap, sp) = fixed-pointers nil_object new_method counts m (omega arith) in
      let (fp', heap', sp') =
        push_nils-keeps nil_object (get_temporal_count (header_of m new_method))
          (push_fixed nil_object new_method counts m) nils-room in
      (fp' ∙ fp, heap' ∙ heap, omega (arith, sp, sp'))

  pub frame-above :
      (a : ℕ)
      → m.stack_pointer - 40 ≤ a
      → frame.memory a ≡ (push_fixed nil_object new_method counts m).memory a
  unfolding push_frame
  frame-above a h =
      push_nils-above nil_object (get_temporal_count (header_of m new_method))
        (push_fixed nil_object new_method counts m) a nils-room
        (omega (arith, fixed-pointers nil_object new_method counts m (omega arith)))

  pub frame-memory :
      (frame.memory (m.stack_pointer - 8) ≡ m.frame_pointer)
      × (frame.memory (m.stack_pointer - 16) ≡ new_method)
      × (frame.memory (m.stack_pointer - 24) ≡ encode_frame_meta_data false false counts)
      × ((a : ℕ) → m.stack_pointer ≤ a → frame.memory a ≡ m.memory a)
  frame-memory =
      let (saved, method, metadata) = fixed-memory nil_object new_method counts m (omega arith) in
      (
        frame-above (m.stack_pointer - 8) (omega arith) ∙ saved,
        frame-above (m.stack_pointer - 16) (omega arith) ∙ method,
        frame-above (m.stack_pointer - 24) (omega arith) ∙ metadata,
        λ a h.
            frame-above a (omega arith)
            ∙ fixed-above nil_object new_method counts m (omega arith) a h,
      )

  -- The machine in which a method runs that was activated.
  abbrev pub running : Machine
  running = record frame {
    has_context = false;
    is_block = false;
    argument_count = counts;
    method = new_method;
    pc = first_pc_offset (header_of m new_method);
  }

  pub activate-running :
      (safe_point stack_overflow : Machine → Machine) (stack_limit : ℕ)
      → safe_point frame ≡ frame
      → stack_limit + 40 + 8 * get_temporal_count (header_of m new_method) ≤ m.stack_pointer
      → activate_method_frame nil_object safe_point stack_overflow stack_limit new_method m
        ≡ ok running
  unfolding activate_method_frame fetch_frame_data
  activate-running safe_point stack_overflow stack_limit quiet low =
      let (fp, heap, sp) = frame-pointers in
      let (saved, method, metadata, above) = frame-memory in
      let some_frame : (frame.frame_pointer == 0) ≡ false = ground (arith, fp) in
      let decoded : decode_frame_meta_data (frame.memory (frame.frame_pointer - 16))
          ≡ (false, false, counts) =
        ap (λ (a : ℕ). decode_frame_meta_data (frame.memory a)) (omega (arith, fp))
        ∙ ap decode_frame_meta_data metadata
        ∙ (decode-encode_frame_meta_data false false counts).0
        ∙ ap (λ (n : ℕ). (false, false, n))
            (omega (arith, arguments-lt (header_of m new_method))) in
      let named : frame.memory (frame.frame_pointer - 8) ≡ new_method =
        ap (λ (a : ℕ). frame.memory a) (omega (arith, fp)) ∙ method in
      let enough : ltb frame.stack_pointer stack_limit ≡ false = ground (arith, sp) in
      rw (quiet, some_frame, decoded, named, enough, ap (λ (h : ℕ → ℕ). h (new_method + 8)) heap)
        refl

-- A return, by the words at the frame pointer.
module _ (nil_object : ℕ) (base_return : ℕ → Machine → Outcome Machine) (value : ℕ)
    (r : Machine) where
  abbrev pub result_at : ℕ
  result_at = r.frame_pointer + 16 + r.argument_count * 8

  widow_current-memory : (widow_current nil_object r).memory ≡ r.memory
  unfolding widow_current widow_context
  widow_current-memory =
      elim (Bool-cases (decode_frame_meta_data (r.memory (r.frame_pointer - 16))).0) [
        | inl married ↦ rw married refl
        | inr single ↦ rw single refl
      ]

  -- The machine after a return.
  pub record IsReturned (s : Machine) : Type 0 where
    pub caller : s.frame_pointer ≡ r.memory r.frame_pointer
    pub next_pc : s.pc ≡ r.memory (r.frame_pointer + 8)
    pub top : s.stack_pointer ≡ result_at
    pub words : (a : ℕ) → s.memory a ≡ (if result_at == a then value else r.memory a)
    pub fields :
        (s.has_context, s.is_block, s.argument_count)
        ≡ decode_frame_meta_data (s.memory (s.frame_pointer - 16))
    pub owner : s.method ≡ s.memory (s.frame_pointer - 8)

  abbrev after_pop : Machine
  after_pop =
      push
        (record (widow_current nil_object r) {
          frame_pointer = r.memory r.frame_pointer;
          pc = r.memory (r.frame_pointer + 8);
          stack_pointer = r.frame_pointer + 16 + (r.argument_count + 1) * 8;
        })
        value

  abbrev returned : Machine
  returned = record after_pop {
    has_context = (decode_frame_meta_data (after_pop.memory (after_pop.frame_pointer - 16))).0;
    is_block = (decode_frame_meta_data (after_pop.memory (after_pop.frame_pointer - 16))).1;
    argument_count = (decode_frame_meta_data (after_pop.memory (after_pop.frame_pointer - 16))).2;
    method = after_pop.memory (after_pop.frame_pointer - 8);
  }

  place : r.frame_pointer + 16 + (r.argument_count + 1) * 8 - 8 ≡ result_at
  place = omega arith

  pub local_return-IsReturned :
      r.memory r.frame_pointer ≢ 0
      → (s : Machine) × (local_return_value nil_object base_return value r ≡ ok s) × IsReturned s
  unfolding local_return_value fetch_frame_data push
  local_return-IsReturned some_caller =
      let not_base : (r.memory r.frame_pointer == 0) ≡ false = ground arith in
      (
        returned,
        rw not_base refl,
        record {
          caller = refl;
          next_pc = refl;
          top = place;
          words = λ a.
              ap (λ (p : ℕ). store (widow_current nil_object r).memory p value a) place
              ∙ ap (λ (w : ℕ → ℕ). store w result_at value a) widow_current-memory;
          fields = refl;
          owner = refl;
        },
      )
