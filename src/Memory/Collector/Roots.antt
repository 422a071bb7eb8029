-- ===== src/Memory/Collector/Roots.antt =====
-- The state of `GarbageCollector` of vm/MemoryManager.cpp, its roots and its requests.
use lodtalk.Prelude.{
  ℕ, zero, suc, ◌+◌, ◌<◌, ◌≡◌, refl, sym, ap, ◌∙◌, arith, List, [], ◌∷◌, ◌++◌, none, some, Bool,
  true, false, length, get_elem?, length-append, ◌&&◌, ◌==◌, if◌then◌else◌, Bool-cases, inl, inr,
}
use mathlib.Core.Path.{ap₂}

-- `std::vector::erase` at an index.
abbrev pub erase {ℓ} : {A : Type ℓ} → List A → ℕ → List A
erase [] i = []
erase (x ∷ xs) zero = xs
erase (x ∷ xs) (suc i) = x ∷ erase xs i

-- A root is the address of its first word and the number of its words.
pub register_gc_root : List (ℕ × ℕ) → ℕ → ℕ → List (ℕ × ℕ)
register_gc_root roots gcroot size = roots ++ (gcroot, size) ∷ []

-- `for(size_t i = 0; i < rootPointers.size(); ++i)`: the index moves on after an `erase` too.
unfoldable pub unregister_loop : ℕ → ℕ → ℕ → List (ℕ × ℕ) → List (ℕ × ℕ)
unregister_loop zero gcroot i roots = roots
unregister_loop (suc fuel) gcroot i roots = elim (get_elem? roots i) [
  | none ↦ roots
  | some (address, size) ↦
      unregister_loop fuel gcroot (i + 1) (if address == gcroot then erase roots i else roots)
]

-- There is a round for each root at most, and one to see the end.
unfoldable pub unregister_gc_root : List (ℕ × ℕ) → ℕ → List (ℕ × ℕ)
unregister_gc_root roots gcroot = unregister_loop (length roots + 1) gcroot 0 roots

-- What is kept: all but the roots at the address. `skip` tells that the last one was erased.
abbrev pub unregistered : ℕ → Bool → List (ℕ × ℕ) → List (ℕ × ℕ)
unregistered gcroot skip [] = []
unregistered gcroot true (r ∷ roots) = r ∷ unregistered gcroot false roots
unregistered gcroot false (r ∷ roots) = elim (r.0 == gcroot) [
  | true ↦ unregistered gcroot true roots
  | false ↦ r ∷ unregistered gcroot false roots
]

abbrev pub without : ℕ → List (ℕ × ℕ) → List (ℕ × ℕ)
without gcroot [] = []
without gcroot (r ∷ roots) =
    if r.0 == gcroot then without gcroot roots else r ∷ without gcroot roots

get_elem?-front :
    (front rest : List (ℕ × ℕ)) → get_elem? (front ++ rest) (length front) ≡ get_elem? rest 0
get_elem?-front [] rest = refl
get_elem?-front (x ∷ front) rest = get_elem?-front front rest

erase-front :
    (front : List (ℕ × ℕ)) (r : ℕ × ℕ) (rest : List (ℕ × ℕ))
    → erase (front ++ r ∷ rest) (length front) ≡ front ++ rest
erase-front [] r rest = refl
erase-front (x ∷ front) r rest = ap (λ l. x ∷ l) (erase-front front r rest)

append-one :
    (front : List (ℕ × ℕ)) (r : ℕ × ℕ) (rest : List (ℕ × ℕ))
    → front ++ r ∷ rest ≡ (front ++ r ∷ []) ++ rest
append-one [] r rest = refl
append-one (x ∷ front) r rest = ap (λ l. x ∷ l) (append-one front r rest)

-- One round of the loop, and its end.
module _ (fuel gcroot i : ℕ) (roots : List (ℕ × ℕ)) where
  loop_end : get_elem? roots i ≡ none → unregister_loop (suc fuel) gcroot i roots ≡ roots
  unfolding unregister_loop
  loop_end e = rw (e, unregister_loop) refl

  loop_keep :
      (r : ℕ × ℕ)
      → get_elem? roots i ≡ some r
      → (r.0 == gcroot) ≡ false
      → unregister_loop (suc fuel) gcroot i roots ≡ unregister_loop fuel gcroot (i + 1) roots
  unfolding unregister_loop
  loop_keep r e other = rw (e, unregister_loop) (rw other refl)

  loop_erase :
      (r : ℕ × ℕ)
      → get_elem? roots i ≡ some r
      → (r.0 == gcroot) ≡ true
      → unregister_loop (suc fuel) gcroot i roots
        ≡ unregister_loop fuel gcroot (i + 1) (erase roots i)
  unfolding unregister_loop
  loop_erase r e same = rw (e, unregister_loop) (rw same refl)

-- The next round looks past a root in front.
past :
    (fuel gcroot : ℕ) (front : List (ℕ × ℕ)) (r : ℕ × ℕ) (rest : List (ℕ × ℕ))
    → unregister_loop fuel gcroot (length front + 1) (front ++ r ∷ rest)
      ≡ unregister_loop fuel gcroot (length (front ++ r ∷ [])) ((front ++ r ∷ []) ++ rest)
past fuel gcroot front r rest =
    ap₂ (unregister_loop fuel gcroot) (sym (length-append front (r ∷ []))) (append-one front r rest)

past_end : (front : List (ℕ × ℕ)) → get_elem? (front ++ []) (length front + 1) ≡ none
past_end [] = refl
past_end (x ∷ front) =
    let e : suc (length front) + 1 ≡ suc (length front + 1) = omega arith in rw e (past_end front)

past_last :
    (front : List (ℕ × ℕ)) (r : ℕ × ℕ) → get_elem? (front ++ r ∷ []) (length front + 1) ≡ none
past_last [] r = refl
past_last (x ∷ front) r =
    let e : suc (length front) + 1 ≡ suc (length front + 1) = omega arith in
    rw e (past_last front r)

loop-unregistered :
    (gcroot : ℕ) (rest front : List (ℕ × ℕ)) (fuel : ℕ)
    → length rest < fuel
    → unregister_loop fuel gcroot (length front) (front ++ rest)
      ≡ front ++ unregistered gcroot false rest
loop-unregistered gcroot rest front zero h = absurd (omega arith)
loop-unregistered gcroot [] front (suc fuel) h =
    loop_end fuel gcroot (length front) (front ++ []) (get_elem?-front front [])
loop-unregistered gcroot (r ∷ []) front (suc zero) h = absurd (omega arith)
loop-unregistered gcroot (r ∷ []) front (suc (suc fuel)) h = elim (Bool-cases (r.0 == gcroot)) [
  | inl same ↦
      rw (same, unregistered)
        (loop_erase (suc fuel) gcroot (length front) (front ++ r ∷ []) r
            (get_elem?-front front (r ∷ [])) same
          ∙ ap (unregister_loop (suc fuel) gcroot (length front + 1)) (erase-front front r [])
          ∙ loop_end fuel gcroot (length front + 1) (front ++ []) (past_end front))
  | inr other ↦
      rw (other, unregistered)
        (loop_keep (suc fuel) gcroot (length front) (front ++ r ∷ []) r
            (get_elem?-front front (r ∷ [])) other
          ∙ loop_end fuel gcroot (length front + 1) (front ++ r ∷ []) (past_last front r))
]
loop-unregistered gcroot (r ∷ s ∷ rest) front (suc fuel) h = elim (Bool-cases (r.0 == gcroot)) [
  | inl same ↦
      rw (same, unregistered)
        (loop_erase fuel gcroot (length front) (front ++ r ∷ s ∷ rest) r
            (get_elem?-front front (r ∷ s ∷ rest)) same
          ∙ ap (unregister_loop fuel gcroot (length front + 1)) (erase-front front r (s ∷ rest))
          ∙ past fuel gcroot front s rest
          ∙ loop-unregistered gcroot rest (front ++ s ∷ []) fuel (omega arith)
          ∙ sym (append-one front s (unregistered gcroot false rest)))
  | inr other ↦
      rw (other, unregistered)
        (loop_keep fuel gcroot (length front) (front ++ r ∷ s ∷ rest) r
            (get_elem?-front front (r ∷ s ∷ rest)) other
          ∙ past fuel gcroot front r (s ∷ rest)
          ∙ loop-unregistered gcroot (s ∷ rest) (front ++ r ∷ []) fuel (omega arith)
          ∙ sym (append-one front r (unregistered gcroot false (s ∷ rest))))
]

-- unregisterGCRoot takes every root at the address out of the list, except where it stands right
-- behind one that is taken out: such a root is kept, whatever its address. The other roots stay in
-- their order.
pub unregister_gc_root-unregistered :
    (roots : List (ℕ × ℕ)) (gcroot : ℕ)
    → unregister_gc_root roots gcroot ≡ unregistered gcroot false roots
unfolding unregister_gc_root
unregister_gc_root-unregistered roots gcroot =
    loop-unregistered gcroot roots [] (length roots + 1) (omega arith)

-- No two roots at the address stand next to each other.
abbrev pub Spread : ℕ → List (ℕ × ℕ) → Type 0
Spread gcroot [] = Unit {0}
Spread gcroot (r ∷ []) = Unit {0}
Spread gcroot (r ∷ s ∷ roots) =
    (((r.0 == gcroot) && (s.0 == gcroot)) ≡ false) × Spread gcroot (s ∷ roots)

Spread-rest :
    (gcroot : ℕ) (r : ℕ × ℕ) (roots : List (ℕ × ℕ))
    → Spread gcroot (r ∷ roots)
    → Spread gcroot roots
Spread-rest gcroot r [] h = tt
Spread-rest gcroot r (s ∷ roots) h = h.1

unregistered-without :
    (gcroot : ℕ) (roots : List (ℕ × ℕ))
    → Spread gcroot roots
    → unregistered gcroot false roots ≡ without gcroot roots
unregistered-without gcroot [] h = refl
unregistered-without gcroot (r ∷ []) h = elim (Bool-cases (r.0 == gcroot)) [
  | inl same ↦ rw (same, unregistered) refl
  | inr other ↦ rw (other, unregistered) refl
]
unregistered-without gcroot (r ∷ s ∷ roots) h = elim (Bool-cases (r.0 == gcroot)) [
  | inl same ↦
      let next : (s.0 == gcroot) ≡ false = rw same at h.0 in
      let later = unregistered-without gcroot roots (Spread-rest gcroot s roots h.1) in
      rw (same, next, unregistered) (ap (λ l. s ∷ l) later)
  | inr other ↦
      rw (other, unregistered) (ap (λ l. r ∷ l) (unregistered-without gcroot (s ∷ roots) h.1))
]

-- Where no two roots at the address stand next to each other, unregisterGCRoot takes out exactly the
-- roots at the address and keeps all others in their order.
pub unregister_gc_root-without :
    (roots : List (ℕ × ℕ)) (gcroot : ℕ)
    → Spread gcroot roots
    → unregister_gc_root roots gcroot ≡ without gcroot roots
unregister_gc_root-without roots gcroot h =
    unregister_gc_root-unregistered roots gcroot ∙ unregistered-without gcroot roots h
