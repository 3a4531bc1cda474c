-- ===== src/MetadataQueue.antt =====
-- src/metadata_queue.h: the queue of one kind's metadata, a vector ordered by the standard library's
-- heap functions. The functions are a parameter, and `IsStdHeap` (of Heap) what the standard documents.
-- A timestamp or an `order` only ever meets another in a comparison: it is modelled by its distance
-- from the smallest value of its type. The mutex is not modelled: every operation holds it throughout.
-- The assertions are compiled out, as in the release build that README.md describes.
pub mod Heap
pub mod Sorted
pub mod Popped
pub mod Pop
pub mod PopAll
pub mod Single
pub mod Group
mod Tests
use metamix.Base.{
  ℕ, zero, suc, List, [], ◌∷◌, ◌++◌, Bool, true, false, not, ◌&&◌, Option, none, some,
}
use metamix.Base.{if◌then◌else◌, ltb, leb, ◌==◌, length, ◌-◌}
use metamix.Binary.Outcome.{Outcome, ok, fault, bind}

-- Metadata<K>; `val` is what its shared pointer refers to.
pub record Metadata (V : Type 0) : Type 0 where
  pub input_id : ℕ
  pub pts : ℕ
  pub dts : ℕ
  pub order : ℕ
  pub val : V

-- std::push_heap and std::pop_heap, on a whole vector.
pub record StdHeap (A : Type 0) : Type 0 where
  pub push_heap : (A → A → Bool) → List A → List A
  pub pop_heap : (A → A → Bool) → List A → List A

-- A vector's elements before the last one (what pop_back leaves), and its last one (back).
unfoldable pub pop_back : {A : Type 0} → List A → Option (List A × A)
pop_back [] = none
pop_back (x ∷ xs) = elim (pop_back xs) [ none ↦ some ([], x) | some (ys, y) ↦ some (x ∷ ys, y) ]

unfoldable pub remove_if : {A : Type 0} → (A → Bool) → List A → List A
remove_if p [] = []
remove_if p (x ∷ xs) = let rest = remove_if p xs in if p x then rest else x ∷ rest

-- q.back() and q.pop_back(): on an empty queue they are undefined behaviour.
abbrev pub front_of : {A : Type 0} → Option (List A × A) → Outcome (A × List A)
front_of none = fault
front_of (some (rest, value)) = ok (value, rest)

module _ {V : Type 0} where
  unfoldable pub comparator : Metadata V → Metadata V → Bool
  comparator lhs rhs =
      if lhs.pts == rhs.pts
      then (if lhs.input_id == rhs.input_id
          then ltb rhs.order lhs.order
          else ltb rhs.input_id lhs.input_id)
      else ltb rhs.pts lhs.pts

  -- The test of a popped item, when it is before `until`.
  unfoldable pub is_requested : ℕ → ℕ → Metadata V → Bool
  is_requested id since value = leb since value.pts && (value.input_id == id)

  module _ (heap : StdHeap (Metadata V)) where
    unfoldable pub push : List (Metadata V) → Metadata V → List (Metadata V)
    push q value = heap.push_heap comparator (q ++ (value ∷ []))

    unfoldable pub pop_any_impl : List (Metadata V) → Outcome (Metadata V × List (Metadata V))
    pop_any_impl q = front_of (pop_back (heap.pop_heap comparator q))

    -- while (!q.empty() && q.front().pts == value.pts)
    unfoldable pub drop_colliding : ℕ → ℕ → List (Metadata V) → Outcome (List (Metadata V))
    drop_colliding fuel pts [] = ok []
    drop_colliding zero pts (top ∷ q) = fault
    drop_colliding (suc fuel) pts (top ∷ q) =
        if top.pts == pts
        then bind (pop_any_impl (top ∷ q)) (λ (_, rest). drop_colliding fuel pts rest)
        else ok (top ∷ q)

    -- for (;;), with a step for every item of the queue.
    unfoldable pub pop_loop :
        ℕ → ℕ → ℕ → ℕ → List (Metadata V) → Outcome (Option (Metadata V) × List (Metadata V))
    pop_loop fuel id since until [] = ok (none, [])
    pop_loop zero id since until (top ∷ q) = fault
    pop_loop (suc fuel) id since until (top ∷ q) =
        if leb until top.pts
        then ok (none, top ∷ q)
        else bind (pop_any_impl (top ∷ q)) λ (value, rest).
          if is_requested id since value
          then bind (drop_colliding fuel value.pts rest) (λ left. ok (some value, left))
          else pop_loop fuel id since until rest

    unfoldable pub pop_impl :
        ℕ → ℕ → ℕ → List (Metadata V) → Outcome (Option (Metadata V) × List (Metadata V))
    pop_impl id since until q = pop_loop (length q) id since until q

    -- What pop_all moves to its output iterator, and the queue it leaves.
    unfoldable pub pop_all_loop :
        ℕ → ℕ → ℕ → ℕ → List (Metadata V) → Outcome (List (Metadata V) × List (Metadata V))
    pop_all_loop zero id since until q = fault
    pop_all_loop (suc fuel) id since until q = bind (pop_impl id since until q) λ (opt, rest).
        elim opt [
          | none ↦ ok ([], rest)
          | some value ↦
              bind (pop_all_loop fuel id since until rest) λ (out, left). ok (value ∷ out, left)
        ]

    unfoldable pub pop_all :
        ℕ → ℕ → ℕ → List (Metadata V) → Outcome (List (Metadata V) × List (Metadata V))
    pop_all id since until q = pop_all_loop (suc (length q)) id since until q

  -- drop_id: the number of items dropped, and the queue it leaves.
  unfoldable pub drop_id : ℕ → List (Metadata V) → ℕ × List (Metadata V)
  drop_id id q = let rest = remove_if (λ t. t.input_id == id) q in (length q - length rest, rest)
