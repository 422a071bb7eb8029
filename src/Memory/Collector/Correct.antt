-- ===== src/Memory/Collector/Correct.antt =====
-- `mark` of vm/MemoryManager.cpp ends and colours exactly the reachable objects.
use lodtalk.Prelude.{
  ℕ, zero, suc, ◌+◌, ◌≤◌, ◌<◌, ◌≡◌, ◌≢◌, refl, sym, ap, ◌∙◌, arith, List, [], ◌∷◌, ◌⊎◌, inl, inr,
  Bool, true, false, ◌&&◌, All, Bool-cases, length, if◌then◌else◌,
}
use lodtalk.Outcome.{Outcome, ok}
use lodtalk.ObjectModel.Oop.{is_pointer}
use lodtalk.Memory.Collector.Objects.{Memory, Color, white, gray, black, children}
use lodtalk.Memory.Collector.Marking.{Colors, set_color, is_white, mark_each, mark_object, mark}
use lodtalk.Memory.Collector.Reachable.{In, Reachable, root, child}
use lodtalk.Memory.Collector.Marked.{
  Marks, AllMarked, still_marked, set_color-same, nothing-Marks, sequence-Marks, skip-Marks,
  object-Marks, Color-cases, black_not_white, gray_not_white, set_color-marked,
}

-- How many of the objects are white.
abbrev pub whites : List ℕ → Colors → ℕ
whites [] c = 0
whites (o ∷ os) c = (if is_white (c o) then 1 else 0) + whites os c

white-is_white : (c : Color) → is_white c ≡ true → c ≡ white
white-is_white white e = refl
white-is_white gray e = cc
white-is_white black e = cc

is_white-le :
    (x y : Color)
    → (x ≢ white → y ≢ white)
    → (if is_white y then 1 else 0) ≤ (if is_white x then 1 else 0)
is_white-le white white h = omega arith
is_white-le white gray h = omega arith
is_white-le white black h = omega arith
is_white-le gray white h = absurd (h (λ e. cc) refl)
is_white-le gray gray h = omega arith
is_white-le gray black h = omega arith
is_white-le black white h = absurd (h (λ e. cc) refl)
is_white-le black gray h = omega arith
is_white-le black black h = omega arith

whites_mono :
    (space : List ℕ) (c c' : Colors)
    → ((a : ℕ) → c a ≢ white → c' a ≢ white)
    → whites space c' ≤ whites space c
whites_mono [] c c' h = omega arith
whites_mono (o ∷ os) c c' h = omega (arith, is_white-le (c o) (c' o) (h o), whites_mono os c c' h)

gray_less :
    (space : List ℕ) (o : ℕ) (c : Colors)
    → c o ≡ white
    → In o space
    → whites space (set_color o gray c) < whites space c
gray_less [] o c w i = absurd i
gray_less (p ∷ os) o c w i =
    let more = set_color-marked o gray c gray_not_white in
    let rest = whites_mono os c (set_color o gray c) more in
    let here = is_white-le (c p) (set_color o gray c p) (more p) in
    elim i [
      | inl same ↦ rw (set_color-same o p gray c same, sym (ap c same) ∙ w) (omega (arith, rest))
      | inr later ↦ omega (arith, here, gray_less os o c w later)
    ]

-- The objects that the collector can meet.
abbrev pub Pointers : List ℕ → List ℕ → Type 0
Pointers space words = All (λ o. is_pointer o ≡ true → In o space) words

abbrev pub IsSpace : Memory → List ℕ → Type 0
IsSpace m space = (p : ℕ) → In p space → Pointers space (children m p)

mark_object-step :
    (m : Memory) (fuel o : ℕ) (c c' : Colors)
    → (is_pointer o && is_white (c o)) ≡ true
    → mark_each (mark_object m fuel) (children m o) (set_color o gray c) ≡ ok c'
    → mark_object m (suc fuel) o c ≡ ok (set_color o black c')
unfolding mark_object
mark_object-step m fuel o c c' go run = rw (go, mark_object) (rw run refl)

module _ (m : Memory) (space : List ℕ) (closed : IsSpace m space) where
  abbrev Ends : ℕ → (Colors → Outcome Colors) → List ℕ → Type 0
  Ends fuel run words =
      (c : Colors) → whites space c < fuel → (c' : Colors) × (run c ≡ ok c') × Marks m words c c'

  mark_each-Ends :
      (fuel : ℕ) (words : List ℕ)
      → ((o : ℕ) → (is_pointer o ≡ true → In o space) → Ends fuel (mark_object m fuel o) (o ∷ []))
      → Pointers space words
      → Ends fuel (mark_each (mark_object m fuel) words) words
  mark_each-Ends fuel [] one inside c enough = (c, refl, nothing-Marks m c)
  mark_each-Ends fuel (o ∷ os) one inside c enough =
      let (c1, first, marks) = one o inside.0 c enough in
      let fewer = whites_mono space c c1 (λ a n. still_marked c c1 a (marks.keeps a n) n) in
      let (c2, later, marks') = mark_each-Ends fuel os one inside.1 c1 (omega arith) in
      (c2, rw first later, sequence-Marks m o os c c1 c2 marks marks')

  mark_object-Ends :
      (fuel o : ℕ) → (is_pointer o ≡ true → In o space) → Ends fuel (mark_object m fuel o) (o ∷ [])
  unfolding mark_object
  mark_object-Ends zero o inside c enough = absurd (omega arith)
  mark_object-Ends (suc fuel) o inside c enough =
      elim (Bool-cases (is_pointer o && is_white (c o))) [
        | inl go ↦
            let (ptr, w) = both (is_pointer o) (c o) go in
            let less = gray_less space o c w (inside ptr) in
            let (c', run, marks) =
              mark_each-Ends fuel (children m o) (mark_object-Ends fuel) (closed o (inside ptr))
                (set_color o gray c) (omega arith) in
            (
              set_color o black c',
              mark_object-step m fuel o c c' go run,
              object-Marks m o c c' ptr w marks,
            )
        | inr skip ↦ (c, rw (skip, mark_object) refl, skip-Marks m o c skip)
      ]
    where
      both : (b : Bool) (x : Color) → (b && is_white x) ≡ true → (b ≡ true) × (x ≡ white)
      both true x e = (refl, white-is_white x e)
      both false x e = absurd (cc)

whites-length : (space : List ℕ) (c : Colors) → whites space c ≤ length space
whites-length [] c = omega arith
whites-length (o ∷ os) c =
    omega (arith, is_white-le white (c o) (λ h. absurd (h refl)), whites-length os c)

-- What is marked at the end, once nothing was marked at the start.
module _ (m : Memory) (words : List ℕ) (c c' : Colors) (fresh : (a : ℕ) → c a ≡ white) where
  marked-black : Marks m words c c' → (a : ℕ) → c' a ≢ white → c' a ≡ black
  marked-black h a n = elim (h.blackens a (fresh a)) [ inl w ↦ absurd (n w) | inr b ↦ b ]

  targets_of :
      (xs : List ℕ) (o : ℕ) → AllMarked c' xs → In o xs → is_pointer o ≡ true → c' o ≢ white
  targets_of [] o all i p n = absurd i
  targets_of (x ∷ xs) o all (inl e) p n = all.0 (sym (ap is_pointer e) ∙ p) (sym (ap c' e) ∙ n)
  targets_of (x ∷ xs) o all (inr i) p n = targets_of xs o all.1 i p n

  reached-black : Marks m words c c' → (a : ℕ) → Reachable m words a → c' a ≡ black
  reached-black h a (root i p) = marked-black h a (targets_of words a h.targets i p)
  reached-black h a (child {p} r i ptr) =
      let all =
        h.closes (λ q b. absurd (black_not_white (sym b ∙ fresh q))) p (reached-black h p r) in
      marked-black h a (targets_of (children m p) a all i ptr)

-- mark, started with every object white, ends, and then each object is black if it is reachable
-- from the roots through strong slots and literals, and white if it is not; none is left gray. The
-- pointers among the roots and among the children of the objects in `space` point into `space`, and
-- the fuel, the depth of the recursion, is more than the number of these objects.
pub mark-Reachable :
    (m : Memory) (space roots : List ℕ) (fuel : ℕ) (c : Colors)
    → IsSpace m space
    → Pointers space roots
    → length space < fuel
    → ((a : ℕ) → c a ≡ white)
    → (c' : Colors) × (mark m fuel roots c ≡ ok c')
      × ((a : ℕ)
          → (Reachable m roots a × (c' a ≡ black)) ⊎ ((¬ Reachable m roots a) × (c' a ≡ white)))
unfolding mark
mark-Reachable m space roots fuel c closed inside enough fresh =
    let (c', run, h) =
      mark_each-Ends m space closed fuel roots (mark_object-Ends m space closed fuel) inside c
        (omega (arith, whites-length space c)) in
    (
      c',
      run,
      λ a. elim (Color-cases (c' a)) [
        | inl w ↦ inr (λ r. black_not_white (sym (reached-black m roots c c' fresh h a r) ∙ w), w)
        | inr n ↦ inl (h.sound a (fresh a) n, marked-black m roots c c' fresh h a n)
      ],
    )
