-- ===== src/Memory/Collector/Reachable.antt =====
-- The objects that are reachable from a list of words.
use lodtalk.Prelude.{ℕ, ◌≡◌, List, [], ◌∷◌, ◌⊎◌, true}
use lodtalk.ObjectModel.Oop.{is_pointer}
use lodtalk.Memory.Collector.Objects.{Memory, children}

abbrev pub In : ℕ → List ℕ → Type 0
In x [] = ⊥
In x (y ∷ ys) = (x ≡ y) ⊎ In x ys

-- An object that a word points to, or that a strong slot or a literal of a reachable object points to.
pub data Reachable (m : Memory) (words : List ℕ) : ℕ → Type 0 where
  root : {o : ℕ} → In o words → is_pointer o ≡ true → Reachable m words o
  child :
      {p o : ℕ}
      → Reachable m words p
      → In o (children m p)
      → is_pointer o ≡ true
      → Reachable m words o

module _ {m : Memory} where
  pub Reachable-mono :
      {xs ys : List ℕ} {o : ℕ} → ((x : ℕ) → In x xs → In x ys) → Reachable m xs o → Reachable m ys o
  Reachable-mono sub (root i p) = root (sub _ i) p
  Reachable-mono sub (child r i p) = child (Reachable-mono sub r) i p

  pub Reachable-through :
      {words : List ℕ} {p o : ℕ}
      → Reachable m words p
      → Reachable m (children m p) o
      → Reachable m words o
  Reachable-through via (root i ptr) = child via i ptr
  Reachable-through via (child r i ptr) = child (Reachable-through via r) i ptr
