-- ===== src/Memory/ClassTable/Refinement.antt =====
-- The pages of the class table of vm/MemoryManager.cpp do what the map does.
use mathlib.Core.Path.{subst}
use lodtalk.Prelude.{
  ℕ, ◌+◌, ◌-◌, ◌*◌, ◌/◌, ◌%◌, ◌^◌, ◌≤◌, ◌<◌, ◌≡◌, refl, arith, List, [], ◌∷◌, true, false, ◌&&◌,
  ltb, leb, ◌==◌, length, ltb→lt, Bool-cases, inl, inr,
}
use lodtalk.Outcome.{Outcome, ok, abort, ◌>>=◌}
use lodtalk.Memory.ClassTable.{
  ClassTable, oops_per_page, set_hash, allocate_pages, pages_for_next, get_class_from_index,
  register_class, add_special_class, set_class_at_index,
}
use lodtalk.Memory.ClassTable.Pages.{
  Holds, update, write_element-Holds, read_element-Holds, allocate_page-Holds, allocate_pages-Holds,
}
use lodtalk.Memory.ClassTable.Registry.{
  Registry, Operation, register, add_special, set_class, registered, apply,
}

module _ (nil_object : ℕ) where
  unfoldable pub empty : Registry
  empty = record { next = 0; class_at = λ _. nil_object; hash_of = λ _. 0 }

  unfoldable pub run : Operation → ClassTable → Outcome (ClassTable × ℕ)
  run (register clazz) t = register_class nil_object t clazz
  run (add_special clazz index) t = do t' ← add_special_class nil_object t clazz index; ok (t', 0)
  run (set_class clazz index) t = do t' ← set_class_at_index t clazz index; ok (t', 0)

  -- `ClassTable::ClassTable`
  unfoldable pub new_class_table : ClassTable
  new_class_table = record { page_table = []; size = 0; identity_hash = λ _. 0 }

  unfoldable pub run_all : List Operation → ClassTable → Outcome (ClassTable × List ℕ)
  run_all [] t = ok (t, [])
  run_all (op ∷ ops) t = do
    (t', answer) ← run op t
    (last, answers) ← run_all ops t'
    ok (last, answer ∷ answers)

  -- The pages agree with the abstract table, and past the last index there is nil.
  pub record Refines (t : ClassTable) (r : Registry) : Type 0 where
    pub sized : t.size ≡ r.next
    pub fits : t.size ≤ oops_per_page * length t.page_table
    pub held : Holds t.page_table r.class_at
    pub beyond : (i : ℕ) → r.next ≤ i → r.class_at i ≡ nil_object
    pub hashed : t.identity_hash ≡ r.hash_of

  abbrev pub Agree : Outcome (ClassTable × ℕ) → Outcome (Registry × ℕ) → Type 0
  Agree (ok (t, a)) (ok (r, b)) = Refines t r × (a ≡ b)
  Agree (abort e) (abort e') = e ≡ e'
  Agree _ _ = ⊥

  pages_for_next-Holds :
      (t : ClassTable) (r : Registry)
      → Refines t r
      → Holds (pages_for_next nil_object t) r.class_at
        × (t.size < oops_per_page * length (pages_for_next nil_object t))
  unfolding pages_for_next
  pages_for_next-Holds t r h =
      let (fresh, longer) =
        allocate_page-Holds nil_object r.next r.class_at h.beyond t.page_table (omega arith)
          h.held in
      elim (Bool-cases
        ((t.size % oops_per_page == 0) && (t.size / oops_per_page == length t.page_table))) [
          | inl yes_full ↦ rw yes_full (fresh, omega arith)
          | inr room ↦ rw room (h.held, ground arith)
        ]

  pub register-Refines :
      (t : ClassTable) (r : Registry) (clazz : ℕ)
      → Refines t r
      → (t' : ClassTable) × (register_class nil_object t clazz ≡ ok (t', t.size % 2 ^ 32))
        × Refines t' (registered clazz r)
  unfolding register_class registered
  register-Refines t r clazz h =
      let (holds, room) = pages_for_next-Holds t r h in
      let (pages, wrote, held, same) =
        write_element-Holds (pages_for_next nil_object t) r.class_at t.size clazz holds room in
      (
        record {
          page_table = pages;
          size = t.size + 1;
          identity_hash = set_hash t.identity_hash clazz (t.size % 2 ^ 32);
        },
        rw wrote refl,
        record {
          sized = omega (arith, h.sized);
          fits = omega arith;
          held = subst (λ n. Holds pages (update r.class_at n clazz)) h.sized held;
          beyond = λ i le. ground (arith, h.beyond i);
          hashed = rw (h.sized, h.hashed) refl;
        },
      )

  register-Agree :
      (t : ClassTable) (r : Registry) (clazz : ℕ)
      → Refines t r
      → Agree (register_class nil_object t clazz) (apply (register clazz) r)
  unfolding apply
  register-Agree t r clazz h =
      let (t', done, ref) = register-Refines t r clazz h in rw done (ref, omega (arith, h.sized))

  add_special-Agree :
      (t : ClassTable) (r : Registry) (clazz index : ℕ)
      → Refines t r
      → Agree (run (add_special clazz index) t) (apply (add_special clazz index) r)
  unfolding run add_special_class apply
  add_special-Agree t r clazz index h =
      let k = index / oops_per_page + 1 - length t.page_table in
      let (holds, longer) =
        allocate_pages-Holds nil_object r.next r.class_at h.beyond k t.page_table (omega arith)
          h.held in
      let (pages, wrote, held, same) =
        write_element-Holds (allocate_pages nil_object k t.page_table) r.class_at index clazz holds
          (omega arith) in
      rw wrote (
        record {
          sized = omega (arith, h.sized);
          fits = omega (arith, h.sized);
          held = held;
          beyond = λ i le. ground (arith, h.beyond i);
          hashed = rw h.hashed refl;
        },
        refl,
      )

  set_class-Agree :
      (t : ClassTable) (r : Registry) (clazz index : ℕ)
      → Refines t r
      → Agree (run (set_class clazz index) t) (apply (set_class clazz index) r)
  unfolding run set_class_at_index apply
  set_class-Agree t r clazz index h = elim (Bool-cases (ltb index t.size)) [
    | inl low ↦
        let (pages, wrote, held, same) =
          write_element-Holds t.page_table r.class_at index clazz h.held
            (omega (arith, ltb→lt index t.size low)) in
        let low' : ltb index r.next ≡ true = ground (arith, h.sized) in
        rw (low, low', wrote)
          (
            record {
              sized = h.sized;
              fits = omega arith;
              held = held;
              beyond = λ i le. ground (arith, h.beyond i);
              hashed = h.hashed;
            },
            refl,
          )
    | inr high ↦
        let high' : ltb index r.next ≡ false = ground (arith, h.sized) in rw (high, high') refl
  ]

  pub run-Agree :
      (op : Operation) (t : ClassTable) (r : Registry) → Refines t r → Agree (run op t) (apply op r)
  unfolding run
  run-Agree (register clazz) t r h = register-Agree t r clazz h
  run-Agree (add_special clazz index) t r h = add_special-Agree t r clazz index h
  run-Agree (set_class clazz index) t r h = set_class-Agree t r clazz index h

  pub get_class_from_index-eq :
      (t : ClassTable) (r : Registry) (i : ℕ)
      → Refines t r
      → get_class_from_index nil_object t i ≡ ok (r.class_at i)
  unfolding get_class_from_index
  get_class_from_index-eq t r i h = elim (Bool-cases (leb t.size i)) [
    | inl past ↦ rw (past, h.beyond i (ground arith)) refl
    | inr within ↦
        rw (within, read_element-Holds t.page_table r.class_at i h.held (ground arith)) refl
  ]
