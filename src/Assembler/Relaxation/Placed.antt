-- ===== src/Assembler/Relaxation/Placed.antt =====
-- The streams that `Assembler::computeInstructionsSize` has code for: supported instructions whose
-- labels are in the stream.
use lodtalk.Prelude.{
  ℕ, ◌≤◌, ◌≡◌, refl, arith, ◌⊎◌, inl, inr, Option, none, some, List, [], ◌∷◌, All, ltb,
  if◌then◌else◌, Bool, true, false, Bool-cases, ◌==◌, ==_iff,
}
use lodtalk.Outcome.{ok}
use lodtalk.Assembler.Instruction.{
  Instruction, label, push_receiver_variable, push_literal, push_literal_variable, send_message,
  super_send_message, Node,
}
use lodtalk.Assembler.Sizes.{
  mark, compute_max_size, is_short_send, last_position_from, label_last_position,
}
use lodtalk.Assembler.Relaxation.Monotone.{Aims, IsKnown}
use lodtalk.Assembler.Relaxation.Pass.{instructions}

-- The labels of a stream.
abbrev IsLabel : ℕ → Instruction → Type 0
IsLabel d (label j) = j ≡ d
IsLabel d _ = ⊥

abbrev pub IsPlaced : List Instruction → ℕ → Type 0
IsPlaced [] d = ⊥
IsPlaced (i ∷ is) d = IsLabel d i ⊎ IsPlaced is d

-- What `computeMaxSize` has code for: no super send, and a send whose selector index and argument
-- count fit the second byte.
abbrev pub IsSupported : Instruction → Type 0
IsSupported (send_message s a) = (s ≤ 31) × (a ≤ 7)
IsSupported (super_send_message s a) = ⊥
IsSupported _ = Unit

-- The streams that can be assembled: every instruction is supported and every destination placed.
abbrev pub IsAssemblable : List Instruction → Type 0
IsAssemblable stream = All (λ i. IsSupported i × Aims (IsPlaced stream) i) stream

mark-some : (i : Instruction) (d p t : ℕ) → (u : ℕ) × (mark i d p (some t) ≡ some u)
mark-some (label j) d p t = elim (Bool-cases (j == d)) [ inl e ↦ (p, rw e) | inr e ↦ (t, rw e) ]
mark-some _ d p t = (t, refl)

from-some : (ns : List Node) (d t : ℕ) → (u : ℕ) × (last_position_from ns d (some t) ≡ some u)
unfolding last_position_from
from-some [] d t = (t, refl)
from-some (n ∷ ns) d t =
    let (u, e) = mark-some n.instruction d n.last_position t in
    let (v, f) = from-some ns d u in (v, rw e f)

mark-here : (i : Instruction) (d p : ℕ) (a : Option ℕ) → IsLabel d i → mark i d p a ≡ some p
mark-here (label j) d p a e = rw ((==_iff j d).1 e)
mark-here _ d p a e = absurd e

from-IsPlaced :
    (ns : List Node) (d : ℕ) (a : Option ℕ)
    → IsPlaced (instructions ns) d
    → (u : ℕ) × (last_position_from ns d a ≡ some u)
unfolding last_position_from
from-IsPlaced [] d a h = absurd h
from-IsPlaced (n ∷ ns) d a (inl e) =
    rw (mark-here n.instruction d n.last_position a e) (from-some ns d n.last_position)
from-IsPlaced (n ∷ ns) d a (inr h) = from-IsPlaced ns d _ h

pub label_last_position-IsKnown :
    (ns : List Node) (d : ℕ) → IsPlaced (instructions ns) d → IsKnown (label_last_position ns) d
unfolding label_last_position
label_last_position-IsKnown ns d h = from-IsPlaced ns d none h

pub Aims-map : (P Q : ℕ → Type 0) (i : Instruction) → ((d : ℕ) → P d → Q d) → Aims P i → Aims Q i
Aims-map P Q (Instruction.unconditional_jump d) f h = f d h
Aims-map P Q (Instruction.conditional_jump d c) f h = f d h
Aims-map P Q (Instruction.push_closure c n d x) f h = f d h
Aims-map P Q _ f h = tt

if-ok : (b : Bool) (x y : ℕ) → (s : ℕ) × ((if b then ok x else ok y) ≡ ok s)
if-ok true x y = (x, refl)
if-ok false x y = (y, refl)

not_above : (m a : ℕ) → a ≤ m → ltb m a ≡ false
not_above m a h = ground arith

send-ok : (s a : ℕ) → s ≤ 31 → a ≤ 7 → (x : ℕ) × (compute_max_size (send_message s a) ≡ ok x)
unfolding compute_max_size
send-ok s a h k = elim (Bool-cases (is_short_send s a)) [
  | inl e ↦ (1, rw e)
  | inr e ↦ (2, rw (e, not_above 7 a k, not_above 31 s h))
]

pub compute_max_size-IsSupported :
    (i : Instruction) → IsSupported i → (s : ℕ) × (compute_max_size i ≡ ok s)
unfolding compute_max_size
compute_max_size-IsSupported (send_message s a) h = send-ok s a h.0 h.1
compute_max_size-IsSupported (super_send_message s a) h = absurd h
compute_max_size-IsSupported (push_receiver_variable index long) h = if-ok _ _ _
compute_max_size-IsSupported (push_literal index) h = if-ok _ _ _
compute_max_size-IsSupported (push_literal_variable index) h = if-ok _ _ _
compute_max_size-IsSupported i h = (_, refl)
