-- ===== src/Memory/References.antt =====
-- The doubly linked list of `OopRef`s of vm/MemoryManager.cpp, which the collector walks as roots.
mod Segments
pub mod Represents
mod Removal
pub mod Live
use lodtalk.Prelude.{ℕ, zero, suc, List, [], ◌∷◌, Option, none, some, ◌==◌, if◌then◌else◌}

-- `prevReference_` and `nextReference_` of every reference, by its address, and the ends of the
-- list. `none` is the null pointer.
pub record References : Type 0 where
  pub prev : ℕ → Option ℕ
  pub next : ℕ → Option ℕ
  pub first_reference : Option ℕ
  pub last_reference : Option ℕ

abbrev pub assign : (ℕ → Option ℕ) → ℕ → Option ℕ → ℕ → Option ℕ
assign f a v b = if a == b then v else f b

-- `if(p) p->field = v;`
abbrev pub assign_at : (ℕ → Option ℕ) → Option ℕ → Option ℕ → ℕ → Option ℕ
assign_at f none v = f
assign_at f (some a) v = assign f a v

-- `if(!p) field = v;`
abbrev pub or_else : Option ℕ → Option ℕ → Option ℕ → Option ℕ
or_else none v old = v
or_else (some a) v old = old

pub no_references : References
no_references = record {
  prev = λ _. none;
  next = λ _. none;
  first_reference = none;
  last_reference = none;
}

pub register_oop_reference : References → ℕ → References
register_oop_reference s ref = record {
  prev = assign_at (assign s.prev ref none) s.first_reference (some ref);
  next = assign s.next ref s.first_reference;
  first_reference = some ref;
  last_reference = or_else s.last_reference (some ref) s.last_reference;
}

-- The links of `ref` are read again after each write.
pub unregister_oop_reference : References → ℕ → References
unregister_oop_reference s ref =
    let next' = assign_at s.next (s.prev ref) (s.next ref) in
    let prev' = assign_at s.prev (next' ref) (s.prev ref) in
    record {
      prev = prev';
      next = next';
      first_reference = or_else (prev' ref) (next' ref) s.first_reference;
      last_reference = or_else (next' ref) (prev' ref) s.last_reference;
    }

-- `OopRef *pos = firstReference; for(; pos; pos = pos->nextReference_) f(pos->oop);`: the references
-- that are visited, in order.
pub visit_references : ℕ → References → Option ℕ → Option (List ℕ)
visit_references zero s pos = none
visit_references (suc fuel) s none = some []
visit_references (suc fuel) s (some ref) = elim (visit_references fuel s (s.next ref)) [
  | none ↦ none
  | some refs ↦ some (ref ∷ refs)
]
