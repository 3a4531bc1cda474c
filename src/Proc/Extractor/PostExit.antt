-- ===== src/Proc/Extractor/PostExit.antt =====
-- What post_exit leaves in the queues when an input's thread ends.
use metamix.Base.{ℕ, ◌+◌, List, [], ◌∷◌, ◌≡◌, Bool, arith, ◌==◌, ◌&&◌, not}
use metamix.Base.Int.{ℤ, pos, ◌+ℤ◌}
use metamix.H264.Sei.{SeiPayload}
use metamix.H264.StdSeis.{build_cc_reset_metadata}
use metamix.MetadataQueue.{Metadata, comparator, push, drop_id}
use metamix.MetadataQueue.Group.{QueueGroup, StdHeaps, push_sei, drop_id_all}
use metamix.MetadataQueue.Heap.{IsHeap, IsStdHeap, count}
use metamix.MetadataQueue.PopAll.{drop_id-lem}
use metamix.Proc.Packet.{stamp}
use metamix.Proc.Extractor.{post_exit}

-- A queue `left` in which the items of one input in `q` are replaced by `own`.
abbrev pub IsReplaced :
    {V : Type 0} → ℕ → List (Metadata V) → List (Metadata V) → List (Metadata V) → Type 0
IsReplaced {V = V} id own q left =
    (p : Metadata V → Bool)
    → count p left ≡ count p own + count (λ t. p t && not (t.input_id == id)) q

module _ (heaps : StdHeaps) (laws : IsStdHeap heaps.sei comparator) where
  -- With standard heap functions, and if what the SEI queue keeps without the input's items is a heap
  -- (drop_id restores none): after post_exit the SEI queue is a heap whose only item of the input is
  -- the caption reset one clock unit from now, the SCTE-35 queue has none of the input, and the items
  -- of all other inputs are in both as before.
  pub post_exit-IsReplaced :
      (input_id : ℕ) (now : ℤ) (g : QueueGroup)
      → IsHeap comparator (drop_id input_id g.sei).1
      → let left = post_exit heaps input_id now g in
        IsHeap comparator left.sei
        × IsReplaced input_id
            (build_cc_reset_metadata input_id (stamp (now +ℤ pos 1)) ∷ [])
            g.sei
            left.sei
        × IsReplaced input_id [] g.scte left.scte
  unfolding post_exit push_sei drop_id_all push
  post_exit-IsReplaced input_id now g h =
      let reset : Metadata SeiPayload = build_cc_reset_metadata input_id (stamp (now +ℤ pos 1)) in
      let kept : List (Metadata SeiPayload) = (drop_id input_id g.sei).1 in
      (
        laws.push_IsHeap kept reset h,
        λ p. omega (arith, laws.push_SameBag kept reset h p, (drop_id-lem input_id g.sei).1 p),
        λ p. omega (arith, (drop_id-lem input_id g.scte).1 p),
      )
