-- ===== src/Memory/ClassTable/Registry.antt =====
-- The class table of vm/MemoryManager.cpp as a map from indices to classes, without pages.
use Prim.Native.Nat.{max}
use lodtalk.Prelude.{ℕ, ◌+◌, ◌%◌, ◌^◌, List, [], ◌∷◌, ltb, if◌then◌else◌}
use lodtalk.Outcome.{Outcome, ok, abort, ◌>>=◌, assertion}
use lodtalk.Memory.ClassTable.{set_hash}
use lodtalk.Memory.ClassTable.Pages.{update}

-- The abstract table: the next free index, the class at each index, nil where there is none.
pub record Registry : Type 0 where
  pub next : ℕ
  pub class_at : ℕ → ℕ
  pub hash_of : ℕ → ℕ

pub data Operation : Type 0 where
  register : ℕ → Operation
  add_special set_class : ℕ → ℕ → Operation

unfoldable pub registered : ℕ → Registry → Registry
registered clazz r = record {
  next = r.next + 1;
  class_at = update r.class_at r.next clazz;
  hash_of = set_hash r.hash_of clazz (r.next % 2 ^ 32);
}

-- What an operation does to the abstract table. The second part is the result, 0 for `void`.
unfoldable pub apply : Operation → Registry → Outcome (Registry × ℕ)
apply (register clazz) r = ok (registered clazz r, r.next % 2 ^ 32)
apply (add_special clazz index) r = ok (
  record {
    next = max r.next (index + 1);
    class_at = update r.class_at index clazz;
    hash_of = set_hash r.hash_of clazz (index % 2 ^ 32);
  },
  0,
)
apply (set_class clazz index) r =
    if ltb index r.next
    then ok (record r { class_at = update r.class_at index clazz }, 0)
    else abort assertion

unfoldable pub apply_all : List Operation → Registry → Outcome (Registry × List ℕ)
apply_all [] r = ok (r, [])
apply_all (op ∷ ops) r = do
  (r', answer) ← apply op r
  (last, answers) ← apply_all ops r'
  ok (last, answer ∷ answers)
