-- ===== src/Memory/Collector/Marked.antt =====
-- What a run of `markObject` of vm/MemoryManager.cpp does to the colours.
use lodtalk.Prelude.{
  ℕ, ◌≡◌, ◌≢◌, refl, sym, ap, ◌∙◌, List, [], ◌∷◌, ◌⊎◌, inl, inr, Bool, true, false, All, ◌&&◌, ◌==◌,
  Bool-cases, ==_iff,
}
use mathlib.Core.Path.{subst}
use lodtalk.ObjectModel.Oop.{is_pointer}
use lodtalk.Memory.Collector.Objects.{Memory, Color, white, gray, black, children}
use lodtalk.Memory.Collector.Marking.{Colors, set_color, is_white}
use lodtalk.Memory.Collector.Reachable.{In, Reachable, root, Reachable-mono, Reachable-through}

-- The pointers among the words are marked.
abbrev pub AllMarked : Colors → List ℕ → Type 0
AllMarked c words = All (λ o. is_pointer o ≡ true → c o ≢ white) words

-- What the black objects refer to is marked.
abbrev pub Closed : Memory → Colors → Type 0
Closed m c = (p : ℕ) → c p ≡ black → AllMarked c (children m p)

-- From `c` to `c'`, the marks of objects stay, new marks are black, the words are marked, black
-- objects go on referring to marked ones, and what is marked newly is reachable from the words.
pub record Marks (m : Memory) (words : List ℕ) (c c' : Colors) : Type 0 where
  pub keeps : (a : ℕ) → c a ≢ white → c' a ≡ c a
  pub blackens : (a : ℕ) → c a ≡ white → (c' a ≡ white) ⊎ (c' a ≡ black)
  pub closes : Closed m c → Closed m c'
  pub targets : AllMarked c' words
  pub sound : (a : ℕ) → c a ≡ white → c' a ≢ white → Reachable m words a

pub Color-cases : (c : Color) → (c ≡ white) ⊎ (c ≢ white)
Color-cases white = inl refl
Color-cases gray = inr (λ e. cc)
Color-cases black = inr (λ e. cc)

pub still_marked : (c c' : Colors) (a : ℕ) → c' a ≡ c a → c a ≢ white → c' a ≢ white
still_marked c c' a e h w = h (sym e ∙ w)

pub black_not_white : black ≢ white
black_not_white e = cc

pub gray_not_white : gray ≢ white
gray_not_white e = cc

gray_not_black : gray ≢ black
gray_not_black e = cc

pub eq-cases : (a b : ℕ) → (a ≡ b) ⊎ (a ≢ b)
eq-cases a b = elim (Bool-cases (a == b)) [
  | inl same ↦ inl ((==_iff a b).0 same)
  | inr other ↦ inr (λ e. cc (other, (==_iff a b).1 e))
]

pub set_color-same : (o a : ℕ) (x : Color) (c : Colors) → o ≡ a → set_color o x c a ≡ x
set_color-same o a x c e = rw ((==_iff o a).1 e) refl

pub set_color-other : (o a : ℕ) (x : Color) (c : Colors) → o ≢ a → set_color o x c a ≡ c a
set_color-other o a x c n = elim (Bool-cases (o == a)) [
  | inl same ↦ absurd (n ((==_iff o a).0 same))
  | inr other ↦ rw other refl
]

pub set_color-marked :
    (o : ℕ) (x : Color) (c : Colors) → x ≢ white → (a : ℕ) → c a ≢ white → set_color o x c a ≢ white
set_color-marked o x c h a n e = elim (eq-cases o a) [
  | inl same ↦ h (sym (set_color-same o a x c same) ∙ e)
  | inr other ↦ n (sym (set_color-other o a x c other) ∙ e)
]

AllMarked-mono :
    (c c' : Colors) (words : List ℕ)
    → ((a : ℕ) → c a ≢ white → c' a ≢ white)
    → AllMarked c words
    → AllMarked c' words
AllMarked-mono c c' [] step h = tt
AllMarked-mono c c' (o ∷ os) step h = (λ p. step o (h.0 p), AllMarked-mono c c' os step h.1)

module _ (m : Memory) where
  pub nothing-Marks : (c : Colors) → Marks m [] c c
  nothing-Marks c = record {
    keeps = λ a h. refl;
    blackens = λ a h. inl h;
    closes = λ h. h;
    targets = tt;
    sound = λ a h k. absurd (k h);
  }

  -- One word and then the others.
  pub sequence-Marks :
      (o : ℕ) (os : List ℕ) (c c1 c2 : Colors)
      → Marks m (o ∷ []) c c1
      → Marks m os c1 c2
      → Marks m (o ∷ os) c c2
  sequence-Marks o os c c1 c2 h k = record {
    keeps = λ a n. k.keeps a (still_marked c c1 a (h.keeps a n) n) ∙ h.keeps a n;
    blackens = λ a w. elim (h.blackens a w) [
      | inl w1 ↦ k.blackens a w1
      | inr b1 ↦ inr (k.keeps a (λ e. cc) ∙ b1)
    ];
    closes = λ z. k.closes (h.closes z);
    targets = (λ p. still_marked c1 c2 o (k.keeps o (h.targets.0 p)) (h.targets.0 p), k.targets);
    sound = λ a w n. elim (Color-cases (c1 a)) [
      | inl w1 ↦ Reachable-mono (λ x i. inr i) (k.sound a w1 n)
      | inr n1 ↦ Reachable-mono (λ x i. first_of x i) (h.sound a w n1)
    ];
  }
    where
      first_of : (x : ℕ) → In x (o ∷ []) → In x (o ∷ os)
      first_of x (inl e) = inl e
      first_of x (inr i) = absurd i

  -- A word that is no pointer, or whose object is marked already.
  pub skip-Marks :
      (o : ℕ) (c : Colors) → (is_pointer o && is_white (c o)) ≡ false → Marks m (o ∷ []) c c
  skip-Marks o c e = record {
    keeps = λ a h. refl;
    blackens = λ a h. inl h;
    closes = λ h. h;
    targets = (λ p w. skipped (is_pointer o) (c o) e p w, tt);
    sound = λ a h k. absurd (k h);
  }
    where
      skipped : (b : Bool) (x : Color) → (b && is_white x) ≡ false → b ≡ true → x ≡ white → ⊥
      skipped true white e p w = cc
      skipped true gray e p w = cc
      skipped true black e p w = cc
      skipped false x e p w = cc

  -- A white object, once its children are marked.
  pub object-Marks :
      (o : ℕ) (c c' : Colors)
      → is_pointer o ≡ true
      → c o ≡ white
      → Marks m (children m o) (set_color o gray c) c'
      → Marks m (o ∷ []) c (set_color o black c')
  object-Marks o c c' ptr w h = record {
    keeps = λ a n.
        let other : o ≢ a = λ e. n (ap c (sym e) ∙ w) in
        let before = set_color-other o a gray c other in
        set_color-other o a black c' other ∙ h.keeps a (λ e. n (sym before ∙ e)) ∙ before;
    blackens = λ a wa. elim (eq-cases o a) [
      | inl same ↦ inr (set_color-same o a black c' same)
      | inr other ↦
          let after = set_color-other o a black c' other in
          elim (h.blackens a (set_color-other o a gray c other ∙ wa)) [
            | inl white_now ↦ inl (after ∙ white_now)
            | inr black_now ↦ inr (after ∙ black_now)
          ]
    ];
    closes = λ z p black_p.
        AllMarked-mono c' (set_color o black c') (children m p)
          (set_color-marked o black c' black_not_white)
          (elim (eq-cases o p) [
            | inl same ↦ subst (λ x. AllMarked c' (children m x)) same h.targets
            | inr other ↦
                h.closes (closed_before z) p (sym (set_color-other o p black c' other) ∙ black_p)
          ]);
    targets = (λ p e. black_not_white (sym (set_color-same o o black c' refl) ∙ e), tt);
    sound = λ a wa n. elim (eq-cases o a) [
      | inl same ↦ root (inl (sym same)) (subst (λ x. is_pointer x ≡ true) same ptr)
      | inr other ↦ Reachable-through (root (inl refl) ptr) (
          h.sound a (set_color-other o a gray c other ∙ wa)
            (λ e. n (set_color-other o a black c' other ∙ e)))
    ];
  }
    where
      closed_before : Closed m c → Closed m (set_color o gray c)
      closed_before z p black_p = elim (eq-cases o p) [
        | inl same ↦ absurd (gray_not_black (sym (set_color-same o p gray c same) ∙ black_p))
        | inr other ↦
            AllMarked-mono c (set_color o gray c) (children m p)
              (set_color-marked o gray c gray_not_white)
              (z p (sym (set_color-other o p gray c other) ∙ black_p))
      ]
