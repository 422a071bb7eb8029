-- ===== src/Stack/Elements.antt =====
-- What `oopElementsDo` of vm/StackMemory.hpp visits.
use lodtalk.Prelude.{
  ℕ, zero, suc, ◌+◌, ◌-◌, ◌*◌, ◌/◌, ◌%◌, ◌≡◌, ap, ◌∙◌, arith, List, [], ◌∷◌, ◌++◌, Bool, true,
  false, not, ◌&&◌, ltb, leb, ◌==◌, if◌then◌else◌,
}
use lodtalk.Stack.Frames.{
  Words, StackFrame, get_argument_count, get_end_pointer, addresses, addresses_between,
  oop_elements,
}

-- How often an address is in a list.
abbrev pub visits : List ℕ → ℕ → ℕ
visits [] a = 0
visits (visited ∷ later) a = (if a == visited then 1 else 0) + visits later a

-- 1 for the addresses of `n` words from `start` on.
abbrev in_words : ℕ → ℕ → ℕ → ℕ
in_words a start n =
    if leb start a && (ltb a (start + n * 8) && ((a - start) % 8 == 0)) then 1 else 0

visits-append :
    (first second : List ℕ) (a : ℕ) → visits (first ++ second) a ≡ visits first a + visits second a
visits-append [] second a = omega arith
visits-append (visited ∷ later) second a = omega (arith, visits-append later second a)

in_words-suc :
    (a start n : ℕ)
    → in_words a start (suc n) ≡ (if a == start then 1 else 0) + in_words a (start + 8) n
in_words-suc a start n = ground arith

visits-addresses : (a n start : ℕ) → visits (addresses start n) a ≡ in_words a start n
unfolding addresses
visits-addresses a zero start = ground arith
visits-addresses a (suc n) start =
    omega (arith, visits-addresses a n (start + 8), in_words-suc a start n)

-- A word of the frame, by its address: between the stack pointer and the end of the arguments, but
-- for the saved frame pointer, the return address and the metadata.
abbrev pub is_oop_of_frame : ℕ → StackFrame → ℕ → Bool
is_oop_of_frame last f a =
    leb f.stack_pointer a
    && (ltb a last
        && (((a - f.stack_pointer) % 8 == 0)
            && (not (a == f.frame_pointer)
                && (not (a == f.frame_pointer + 8) && not (a == f.frame_pointer - 16)))))

-- The parts of the frame together.
parts :
    (a fp sp k n : ℕ)
    → fp ≡ sp + 8 * k + 24
    → (if a == fp - 8 then 1 else 0)
        + ((if a == fp - 24 then 1 else 0) + (in_words a sp k + in_words a (fp + 16) (n + 1)))
      ≡ (if is_oop_of_frame
            (fp + 16 + (n + 1) * 8)
            (record { frame_pointer = fp; stack_pointer = sp })
            a
          then 1
          else 0)
parts a fp sp k n h = ground arith

visits-addresses_between :
    (a sp k : ℕ) → visits (addresses_between sp (sp + 8 * k)) a ≡ in_words a sp k
unfolding addresses_between
visits-addresses_between a sp zero =
    let none_left : ltb sp (sp + 8 * 0) ≡ false = ground arith in rw none_left (ground arith)
visits-addresses_between a sp (suc k) =
    let some_left : ltb sp (sp + 8 * suc k) ≡ true = ground arith in
    let words : (sp + 8 * suc k - sp + 7) / 8 ≡ suc k = omega arith in
    rw (some_left, words) (visits-addresses a (suc k) sp)

-- oopElementsDo visits every word of a frame once, and no other: the receiver, the temporaries and
-- what is on the stack above them, the context, the method, the arguments and the receiver behind
-- them. It leaves out the saved frame pointer, the return address and the metadata. The stack pointer
-- is a whole number of words below the context.
pub oop_elements-once :
    (memory : Words) (f : StackFrame) (k a : ℕ)
    → f.frame_pointer ≡ f.stack_pointer + 8 * k + 24
    → visits (oop_elements memory f) a
      ≡ (if is_oop_of_frame (get_end_pointer memory f) f a then 1 else 0)
unfolding oop_elements get_end_pointer
oop_elements-once memory f k a layout =
    let n = get_argument_count memory f in
    let sp = f.stack_pointer in
    let inner : f.frame_pointer - 24 ≡ sp + 8 * k = omega arith in
    let between : visits (addresses_between sp (f.frame_pointer - 24)) a ≡ in_words a sp k =
      ap (λ (e : ℕ). visits (addresses_between sp e) a) inner ∙ visits-addresses_between a sp k in
    let arguments = visits-addresses a (n + 1) (f.frame_pointer + 16) in
    let both =
      visits-append (addresses_between sp (f.frame_pointer - 24))
        (addresses (f.frame_pointer + 16) (n + 1)) a in
    omega (arith, between, arguments, both, parts a f.frame_pointer sp k n layout)
