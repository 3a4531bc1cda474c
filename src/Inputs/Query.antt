-- ===== src/Inputs/Query.antt =====
-- What the queries of the inputs answer.
use metamix.Base.{ℕ, ◌≤◌, ◌<◌, List, [], ◌∷◌, true, ◌≡◌, refl, arith, All, length}
use metamix.Binary.Outcome.{ok}
use metamix.H264.Sei.{SeiPayload}
use metamix.H264.StdSeis.{build_empty_metadata, build_cc_reset_metadata}
use metamix.InputManager.{AbstractInput, InputClass, user_defined_input, clear_input}
use metamix.Inputs.{if_any, frame_end, run_query_sei, or_empty, query_sei}
use metamix.MetadataQueue.{Metadata, comparator}
use metamix.MetadataQueue.Heap.{IsHeap, IsStdHeap, All-map}
use metamix.MetadataQueue.Group.{QueueGroup, StdHeaps, pop_all_sei}
use metamix.MetadataQueue.Popped.{in_frame}
use metamix.MetadataQueue.PopAll.{pop_all-lem}

-- An item of the input, inside the time frame.
abbrev pub IsInside : ℕ → ℕ → ℕ → Metadata SeiPayload → Type 0
IsInside id since until v = (v.input_id ≡ id) × (since ≤ v.pts) × (v.pts < until)

framed-IsInside :
    (id since until : ℕ) (v : Metadata SeiPayload)
    → in_frame id since until v ≡ true
    → IsInside id since until v
framed-IsInside id since until v h = ground arith

-- What a query gives, and the queues that it leaves: at least one item, all of the input and inside
-- the time frame.
abbrev pub IsAnswer : ℕ → ℕ → ℕ → QueueGroup → List (Metadata SeiPayload) × QueueGroup → Type 0
IsAnswer id since until g (out, left) =
    (0 < length out)
    × All (IsInside id since until) out
    × IsHeap comparator left.sei
    × (left.scte ≡ g.scte)

or_empty-IsInside :
    (id since until : ℕ) (out : List (Metadata SeiPayload))
    → since < until
    → All (λ v. in_frame id since until v ≡ true) out
    → (0 < length (or_empty id (frame_end since until) (if_any out)))
      × All (IsInside id since until) (or_empty id (frame_end since until) (if_any out))
unfolding build_empty_metadata
or_empty-IsInside id since until [] lt framed =
    (omega arith, ((refl, omega arith, omega arith), tt))
or_empty-IsInside id since until (x ∷ out) lt framed = (
  omega arith,
  All-map (λ v. in_frame id since until v ≡ true) (IsInside id since until) (x ∷ out)
      (framed-IsInside id since until) framed,
)

module _ (heaps : StdHeaps) (laws : IsStdHeap heaps.sei comparator) where
  query_class :
      (c : InputClass) (input : AbstractInput) (since until : ℕ) (g : QueueGroup)
      → input.input_class ≡ c
      → since < until
      → IsHeap comparator g.sei
      → (r : List (Metadata SeiPayload) × QueueGroup) × (query_sei heaps input since until g ≡ ok r)
        × IsAnswer input.spec.id since until g r
  unfolding query_sei run_query_sei pop_all_sei build_cc_reset_metadata
  query_class user_defined_input input since until g c lt h =
      let id : ℕ = input.spec.id in
      let (out, left, e, d) = pop_all-lem heaps.sei laws id since until g.sei h in
      let (some_out, inside) = or_empty-IsInside id since until out lt d.framed in
      (
        (or_empty id (frame_end since until) (if_any out), record g { sei = left }),
        simp (c, e),
        (some_out, inside, d.heaped, refl),
      )
  query_class clear_input input since until g c lt h =
      let id : ℕ = input.spec.id in
      (
        (build_cc_reset_metadata id (frame_end since until) ∷ [], g),
        simp c,
        (omega arith, ((refl, omega arith, omega arith), tt), h, refl),
      )

  -- With standard heap functions and a queue that is a heap, a query for a time frame that is not
  -- empty returns. It gives at least one item of metadata, all of the input and inside the frame,
  -- whatever is in the queue, and leaves a heap and the queue of the other kind as it was.
  pub query_sei-IsAnswer :
      (input : AbstractInput) (since until : ℕ) (g : QueueGroup)
      → since < until
      → IsHeap comparator g.sei
      → (r : List (Metadata SeiPayload) × QueueGroup) × (query_sei heaps input since until g ≡ ok r)
        × IsAnswer input.spec.id since until g r
  query_sei-IsAnswer input since until g = query_class input.input_class input since until g refl
