-- ===== src/MetadataQueue/Tests.antt =====
-- The queue on the sorted heap, at concrete metadata, as in test/metadata_queue_test.cpp.
use metamix.Base.{zero, ℕ, suc, List, [], ◌∷◌, true, ◌≡◌, refl, Option, some}
use metamix.Binary.Outcome.{ok}
use metamix.MetadataQueue.{
  Metadata, comparator, pop_back, pop_any_impl, drop_colliding, is_requested, pop_loop, pop_impl,
  pop_all_loop, pop_all, remove_if, drop_id,
}
use metamix.MetadataQueue.Heap.{IsHeap}
use metamix.MetadataQueue.Sorted.{insert, sort, pop_first, sorted_heap, sorted_heap-IsStdHeap}
use metamix.MetadataQueue.Popped.{IsPopped}
use metamix.MetadataQueue.Pop.{pop_impl-lem}
use metamix.MetadataQueue.PopAll.{IsDrained, pop_all-lem}

abbrev item : ℕ → ℕ → ℕ → Metadata ℕ
item input_id pts order = record {
  input_id = input_id;
  pts = pts;
  dts = pts;
  order = order;
  val = pts;
}

abbrev queue : List (Metadata ℕ)
queue = item 0 1 0 ∷ item 1 2 0 ∷ item 0 2 0 ∷ []

queue-IsHeap : IsHeap comparator queue
unfolding comparator
queue-IsHeap zero x y ex ey =
    let first : item 0 1 0 ≡ x = cc in
    let second : item 1 2 0 ≡ y = cc in rw (← first, ← second) refl
queue-IsHeap (suc zero) x y ex ey =
    let first : item 0 1 0 ≡ x = cc in let third : item 0 2 0 ≡ y = cc in rw (← first, ← third) refl
queue-IsHeap (suc (suc i)) x y ex ey = cc

popped : pop_impl sorted_heap 0 2 5 queue ≡ ok (some (item 0 2 0), [])
unfolding pop_impl pop_loop pop_any_impl pop_back pop_first sort insert comparator is_requested
    drop_colliding
popped = refl

-- Two items of one input at one time: the second one is dropped with the first one's pop.
two_at_once : pop_all sorted_heap 0 0 5 (item 0 1 0 ∷ item 0 1 1 ∷ []) ≡ ok (item 0 1 0 ∷ [], [])
unfolding pop_all pop_all_loop pop_impl pop_loop pop_any_impl pop_back pop_first sort insert
    comparator is_requested drop_colliding
two_at_once = refl

pop_impl-lem_example :
    (r : Option (Metadata ℕ) × List (Metadata ℕ)) × (pop_impl sorted_heap 0 2 5 queue ≡ ok r)
    × IsPopped 0 2 5 queue r
pop_impl-lem_example = pop_impl-lem sorted_heap sorted_heap-IsStdHeap 0 2 5 queue queue-IsHeap

pop_all-lem_example :
    (out left : List (Metadata ℕ)) × (pop_all sorted_heap 0 0 5 queue ≡ ok (out, left))
    × IsDrained 0 0 5 queue out left
pop_all-lem_example = pop_all-lem sorted_heap sorted_heap-IsStdHeap 0 0 5 queue queue-IsHeap

-- Without the items of input 0 a heap is none: an item of time 3 is behind one of time 4.
abbrev broken : List (Metadata ℕ)
broken = item 0 1 0 ∷ item 1 4 0 ∷ item 0 2 0 ∷ item 1 5 0 ∷ item 1 6 0 ∷ item 1 3 0 ∷ []

dropped : (drop_id 0 broken).1 ≡ item 1 4 0 ∷ item 1 5 0 ∷ item 1 6 0 ∷ item 1 3 0 ∷ []
unfolding drop_id remove_if
dropped = refl

broken_order : comparator (item 1 5 0) (item 1 3 0) ≡ true
unfolding comparator
broken_order = refl
