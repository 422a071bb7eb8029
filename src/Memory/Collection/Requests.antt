-- ===== src/Memory/Collection/Requests.antt =====
-- When a collection of vm/MemoryManager.cpp is asked for, and when it runs.
use lodtalk.Prelude.{
  ℕ, ◌+◌, ◌≡◌, refl, sym, ap, ◌∙◌, arith, List, [], ◌∷◌, Bool, true, false, ◌||◌, if◌then◌else◌,
  Bool-cases, inl, inr,
}
use lodtalk.Prelude.Int.{ℤ, pos, negsuc, ◌+ℤ◌}
use lodtalk.Memory.Collection.{
  Control, positive, enable, disable, queue_garbage_collection, collection_safe_point,
}

-- The calls of other code that concern collections.
pub data Event : Type 0 where
  enables disables queues reaches_safe_point : Event

-- The new state, and the number of collections.
unfoldable pub handle : Event → Control → Control × ℕ
handle enables s = (enable s, 0)
handle disables s = (disable s, 0)
handle queues s = (queue_garbage_collection s, 0)
handle reaches_safe_point s =
    let (s', _, collected) = collection_safe_point s in (s', if collected then 1 else 0)

unfoldable pub handle_all : List Event → Control → Control × ℕ
handle_all [] s = (s, 0)
handle_all (e ∷ es) s =
    let (s', n) = handle e s in let (last, more) = handle_all es s' in (last, n + more)

-- The disable count after an event, and that it is positive before each event and at the end.
unfoldable pub count_after : Event → ℤ → ℤ
count_after enables n = n +ℤ negsuc 0
count_after disables n = n +ℤ pos 1
count_after queues n = n
count_after reaches_safe_point n = n

abbrev pub StaysDisabled : ℤ → List Event → Type 0
StaysDisabled n [] = positive n ≡ true
StaysDisabled n (e ∷ es) = (positive n ≡ true) × StaysDisabled (count_after e n) es

abbrev pub asks : List Event → Bool
asks [] = false
asks (queues ∷ es) = true
asks (enables ∷ es) = asks es
asks (disables ∷ es) = asks es
asks (reaches_safe_point ∷ es) = asks es

-- A safe point while collections are disabled does nothing.
disabled-safe_point :
    (s : Control) → positive s.disable_count ≡ true → handle reaches_safe_point s ≡ (s, 0)
unfolding handle collection_safe_point
disabled-safe_point s h = elim (Bool-cases s.garbage_collection_queued) [
  | inl queued ↦ rw (queued, h) refl
  | inr idle ↦ rw idle refl
]

pub or_true : (b : Bool) → (b || true) ≡ true
or_true true = refl
or_true false = refl

pub or_false : (b : Bool) → b ≡ (b || false)
or_false true = refl
or_false false = refl

handle_all-disabled :
    (es : List Event) (s : Control)
    → StaysDisabled s.disable_count es
    → ((handle_all es s).1 ≡ 0)
      × ((handle_all es s).0.garbage_collection_queued ≡ (s.garbage_collection_queued || asks es))
unfolding handle_all handle count_after enable disable queue_garbage_collection
handle_all-disabled [] s h = (refl, or_false s.garbage_collection_queued)
handle_all-disabled (enables ∷ es) s h =
    let (none_yet, kept) = handle_all-disabled es (enable s) h.1 in (omega arith, kept)
handle_all-disabled (disables ∷ es) s h =
    let (none_yet, kept) = handle_all-disabled es (disable s) h.1 in (omega arith, kept)
handle_all-disabled (queues ∷ es) s h =
    let (none_yet, kept) = handle_all-disabled es (queue_garbage_collection s) h.1 in
    (omega arith, kept ∙ sym (or_true s.garbage_collection_queued))
handle_all-disabled (reaches_safe_point ∷ es) s h =
    let idle = disabled-safe_point s h.0 in
    let (none_yet, kept) = handle_all-disabled es s h.1 in
    (
      ap (λ (r : Control × ℕ). r.1 + (handle_all es r.0).1) idle ∙ omega (arith, none_yet),
      ap (λ (r : Control × ℕ). (handle_all es r.0).0.garbage_collection_queued) idle ∙ kept,
    )

-- A safe point while collections are enabled.
enabled-safe_point :
    (s : Control)
    → positive s.disable_count ≡ false
    → handle reaches_safe_point s ≡ (
      record s { garbage_collection_queued = false },
      if s.garbage_collection_queued then 1 else 0,
    )
unfolding handle collection_safe_point
enabled-safe_point s h = by_request s.garbage_collection_queued refl
  where
    by_request :
        (q : Bool)
        → s.garbage_collection_queued ≡ q
        → handle reaches_safe_point s ≡ (
          record s { garbage_collection_queued = false },
          if s.garbage_collection_queued then 1 else 0,
        )
    by_request true e = rw (e, h) refl
    by_request false e = rw e refl

handle_all-enables :
    (es : List Event) (s : Control)
    → (handle_all (enables ∷ es) s).1
      ≡ (handle_all es (record s { disable_count = s.disable_count +ℤ negsuc 0 })).1
unfolding handle_all handle enable
handle_all-enables es s = omega arith

-- Two safe points, once collections are enabled again.
then_safe_points :
    (s : Control)
    → positive (s.disable_count +ℤ negsuc 0) ≡ false
    → (handle_all (enables ∷ reaches_safe_point ∷ reaches_safe_point ∷ []) s).1
      ≡ (if s.garbage_collection_queued then 1 else 0)
unfolding handle_all
then_safe_points s h =
    let t = record s { disable_count = s.disable_count +ℤ negsuc 0 } in
    let t' = record t { garbage_collection_queued = false } in
    let last : (handle_all (reaches_safe_point ∷ []) t').1 ≡ 0 =
      ap (λ (r : Control × ℕ). r.1 + (handle_all [] r.0).1) (enabled-safe_point t' h) in
    handle_all-enables (reaches_safe_point ∷ reaches_safe_point ∷ []) s
    ∙ ap (λ (r : Control × ℕ). r.1 + (handle_all (reaches_safe_point ∷ []) r.0).1)
        (enabled-safe_point t h)
    ∙ omega (arith, last)

-- While the disable count stays positive no safe point collects, and a request is not lost: when one
-- more `enable` makes the count zero or negative, the two safe points that follow collect once, if a
-- collection was queued at the start or has been queued since, and not at all otherwise.
pub deferred_collection :
    (es : List Event) (s : Control)
    → StaysDisabled s.disable_count es
    → positive ((handle_all es s).0.disable_count +ℤ negsuc 0) ≡ false
    → ((handle_all es s).1 ≡ 0)
      × ((handle_all (enables ∷ reaches_safe_point ∷ reaches_safe_point ∷ []) (handle_all es s).0).1
          ≡ (if s.garbage_collection_queued || asks es then 1 else 0))
deferred_collection es s held last =
    let (none_yet, kept) = handle_all-disabled es s held in
    (
      none_yet,
      then_safe_points (handle_all es s).0 last ∙ ap (λ (b : Bool). if b then 1 else 0) kept,
    )
