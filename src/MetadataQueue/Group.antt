-- ===== src/MetadataQueue/Group.antt =====
-- MetadataQueueGroup of src/metadata_queue.h, for the two kinds of metadata that
-- ApplicationMetadataQueueGroup holds. The heap functions of each queue are a parameter.
use metamix.Base.{ℕ, ◌+◌, List}
use metamix.Binary.Outcome.{Outcome, ok, bind}
use metamix.MetadataQueue.{Metadata, StdHeap, push, pop_all, drop_id}
use metamix.H264.Sei.{SeiPayload}
use metamix.Scte35.Types.{SpliceInfoSection}

-- m_queues
pub record QueueGroup : Type 0 where
  pub sei : List (Metadata SeiPayload)
  pub scte : List (Metadata SpliceInfoSection)

pub record StdHeaps : Type 0 where
  pub sei : StdHeap (Metadata SeiPayload)
  pub scte : StdHeap (Metadata SpliceInfoSection)

-- The member templates, for each of the two kinds.
unfoldable pub push_sei : StdHeaps → QueueGroup → Metadata SeiPayload → QueueGroup
push_sei heaps g meta = record g { sei = push heaps.sei g.sei meta }

unfoldable pub push_scte : StdHeaps → QueueGroup → Metadata SpliceInfoSection → QueueGroup
push_scte heaps g meta = record g { scte = push heaps.scte g.scte meta }

-- What pop_all<SeiKind> moves to its output iterator, and the queues it leaves.
unfoldable pub pop_all_sei :
    StdHeaps → ℕ → ℕ → ℕ → QueueGroup → Outcome (List (Metadata SeiPayload) × QueueGroup)
pop_all_sei heaps id since until g =
    bind (pop_all heaps.sei id since until g.sei) λ (out, left). ok (out, record g { sei = left })

-- drop_id of the group: from every queue, with the sum of the counts.
unfoldable pub drop_id_all : ℕ → QueueGroup → ℕ × QueueGroup
drop_id_all id g =
    let (sei_count, sei) = drop_id id g.sei in
    let (scte_count, scte) = drop_id id g.scte in
    (sei_count + scte_count, record { sei = sei; scte = scte })
