-- ===== src/Memory/ClassTable/Runs.antt =====
-- Runs of the class table of vm/MemoryManager.cpp, as its clients see them.
use lodtalk.Prelude.{
  ℕ, ◌%◌, ◌^◌, ◌<◌, ◌≡◌, refl, ap, ◌∙◌, arith, List, [], ◌∷◌, ◌==◌, if◌then◌else◌,
}
use lodtalk.Outcome.{Outcome, ok, abort, out_of_fuel, ◌>>=◌}
use lodtalk.Memory.ClassTable.{ClassTable, get_class_from_index, register_class}
use lodtalk.Memory.ClassTable.Registry.{Registry, Operation, registered, apply, apply_all}
use lodtalk.Memory.ClassTable.Refinement.{
  Refines, Agree, empty, run, run_all, new_class_table, register-Refines, run-Agree,
  get_class_from_index-eq,
}

module _ (nil_object : ℕ) where
  -- What a client sees of a run: its answers, what every index then finds, and the hashes.
  abbrev pub Same : Outcome (ClassTable × List ℕ) → Outcome (Registry × List ℕ) → Type 0
  Same (ok (t, xs)) (ok (r, ys)) =
      (xs ≡ ys)
      × ((i : ℕ) → get_class_from_index nil_object t i ≡ ok (r.class_at i))
      × (t.identity_hash ≡ r.hash_of)
  Same (abort e) (abort e') = e ≡ e'
  Same _ _ = ⊥

  run_all-Same :
      (ops : List Operation) (t : ClassTable) (r : Registry)
      → Refines nil_object t r
      → Same (run_all nil_object ops t) (apply_all ops r)
  unfolding run_all apply_all
  run_all-Same [] t r h = (refl, λ i. get_class_from_index-eq nil_object t r i h, h.hashed)
  run_all-Same (op ∷ ops) t r h =
      step (run nil_object op t) (apply op r) (run-Agree nil_object op t r h) (run_all-Same ops)
    where
      answered :
          (a b : ℕ) (m : Outcome (ClassTable × List ℕ)) (n : Outcome (Registry × List ℕ))
          → a ≡ b
          → Same m n
          → Same
              (do (last, answers) ← m; ok (last, a ∷ answers))
              (do (last, answers) ← n; ok (last, b ∷ answers))
      answered a b (ok (t, xs)) (ok (r, ys)) e (same, found, hashed) = (cc, found, hashed)
      answered a b (abort x) (abort y) e same = same
      answered a b (ok _) (abort _) e same = absurd same
      answered a b (ok _) out_of_fuel e same = absurd same
      answered a b (abort _) (ok _) e same = absurd same
      answered a b (abort _) out_of_fuel e same = absurd same
      answered a b out_of_fuel (ok _) e same = absurd same
      answered a b out_of_fuel (abort _) e same = absurd same
      answered a b out_of_fuel out_of_fuel e same = absurd same

      step :
          (m : Outcome (ClassTable × ℕ)) (n : Outcome (Registry × ℕ))
          → Agree nil_object m n
          → ((t : ClassTable) (r : Registry)
              → Refines nil_object t r
              → Same (run_all nil_object ops t) (apply_all ops r))
          → Same
              (do (t', a) ← m; (last, answers) ← run_all nil_object ops t'; ok (last, a ∷ answers))
              (do (r', a) ← n; (last, answers) ← apply_all ops r'; ok (last, a ∷ answers))
      step (ok (t, a)) (ok (r, b)) (ref, e) later =
          answered a b (run_all nil_object ops t) (apply_all ops r) e (later t r ref)
      step (abort x) (abort y) agree later = agree
      step (ok _) (abort _) agree later = absurd agree
      step (ok _) out_of_fuel agree later = absurd agree
      step (abort _) (ok _) agree later = absurd agree
      step (abort _) out_of_fuel agree later = absurd agree
      step out_of_fuel (ok _) agree later = absurd agree
      step out_of_fuel (abort _) agree later = absurd agree
      step out_of_fuel out_of_fuel agree later = absurd agree

  pub new_class_table-Refines : Refines nil_object (new_class_table nil_object) (empty nil_object)
  unfolding new_class_table empty
  new_class_table-Refines = record {
    sized = refl;
    fits = omega arith;
    held = λ i h. absurd (omega arith);
    beyond = λ i h. refl;
    hashed = refl;
  }

  -- From the empty table, any sequence of registerClass, addSpecialClass and setClassAtIndex does
  -- with the pages what it does with the map from indices to classes: it ends with the same answers
  -- or with the same failed assertion, getClassFromIndex then gives at every index what the map
  -- holds there (nil where nothing was entered), and the identity hashes are the same.
  pub class_table-Refines :
      (ops : List Operation)
      → Same
          (run_all nil_object ops (new_class_table nil_object))
          (apply_all ops (empty nil_object))
  class_table-Refines ops =
      run_all-Same ops (new_class_table nil_object) (empty nil_object) new_class_table-Refines

  -- A registered class is found by the identity hash that registerClass has given it, while there
  -- are fewer than 2 ^ 22 indices, and at all other indices the classes stay as they were.
  pub register_class-find :
      (t : ClassTable) (r : Registry) (clazz : ℕ)
      → Refines nil_object t r
      → t.size < 2 ^ 22
      → (t' : ClassTable) × (register_class nil_object t clazz ≡ ok (t', t.size))
        × (get_class_from_index nil_object t' (t'.identity_hash clazz) ≡ ok clazz)
        × ((i : ℕ)
            → get_class_from_index nil_object t' i
              ≡ (if i == t.size then ok clazz else get_class_from_index nil_object t i))
  unfolding registered
  register_class-find t r clazz h small =
      let (t', done, ref) = register-Refines nil_object t r clazz h in
      let small_int : t.size % 2 ^ 32 ≡ t.size = omega arith in
      let hash : t'.identity_hash clazz ≡ t.size =
        ap (λ f. f clazz) ref.hashed ∙ ground (arith, h.sized) in
      (
        t',
        done ∙ rw small_int refl,
        rw hash (
            get_class_from_index-eq nil_object t' (registered clazz r) t.size ref
            ∙ ap ok (ground (arith, h.sized))),
        λ i.
            get_class_from_index-eq nil_object t' (registered clazz r) i ref
            ∙ ground (arith, h.sized, get_class_from_index-eq nil_object t r i h),
      )
