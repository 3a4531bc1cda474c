-- ===== src/Proc/Extractor/Markers.antt =====
-- What ScteExtractor::process pushes for a packet of sections that were written by the emitter.
use metamix.Base.{ℕ, List, [], ◌∷◌, ◌++◌, ◌≡◌, refl, ap, ◌∙◌, false, some, arith, All}
use metamix.Base.Int.{ℤ}
use metamix.Binary.Outcome.{ok}
use metamix.Binary.Parser.Drain.{packets}
use metamix.Clock.{TimeBase}
use metamix.Clock.Rescale.{rescale_to_clock_again}
use metamix.MetadataQueue.{Metadata, comparator, push}
use metamix.MetadataQueue.Heap.{IsHeap, IsStdHeap, SameBag, count-append}
use metamix.MetadataQueue.Group.{StdHeaps, push_scte}
use metamix.Proc.Packet.{Packet}
use metamix.Proc.Extractor.{Extraction, tagged, push_section, push_sections, extract_scte}
use metamix.Scte35.Types.{SpliceInfoSection}
use metamix.Scte35.Emitter.{emit_all}
use metamix.Scte35.Emitter.Section.{emit_section}
use metamix.Scte35.Parser.Descriptors.{Compiler}
use metamix.Scte35.Parser.Section.{section_format}
use metamix.Scte35.RoundTrip.Layout.{IsReadable}
use metamix.Scte35.RoundTrip.Stream.{packets-emit_sections}

module _ (av_rescale_q : ℤ → TimeBase → TimeBase → ℤ) (heaps : StdHeaps) (input_id : ℕ)
    (pkt : Packet) where
  -- The metadata that stands for the sections: all with order 0.
  abbrev pub marker_metadata :
      Extraction → List SpliceInfoSection → List (Metadata SpliceInfoSection)
  marker_metadata st [] = []
  marker_metadata st (section ∷ sections) =
      tagged av_rescale_q heaps input_id pkt st 0 section ∷ marker_metadata st sections

  abbrev run : List SpliceInfoSection → Extraction → Extraction
  run = push_sections av_rescale_q heaps input_id pkt

  -- A section pushed does not change how the next ones are tagged.
  marker_metadata-after :
      (x : SpliceInfoSection) (st : Extraction) (sections : List SpliceInfoSection)
      → marker_metadata (push_section av_rescale_q heaps input_id pkt x st) sections
        ≡ marker_metadata st sections
  unfolding push_section
  marker_metadata-after x st [] = refl
  marker_metadata-after x st (y ∷ sections) = rw (
    marker_metadata-after x st sections,
    rescale_to_clock_again av_rescale_q st.pts_rescaler pkt.pts,
    rescale_to_clock_again av_rescale_q st.dts_rescaler pkt.dts,
  )

  -- What the loop leaves: the queue has the expected metadata besides what it had, and is a heap.
  abbrev pub IsMarked : List (Metadata SpliceInfoSection) → Extraction → Extraction → Type 0
  IsMarked expected st left =
      IsHeap comparator left.queues.scte
      × SameBag left.queues.scte (expected ++ st.queues.scte)
      × (left.queues.sei ≡ st.queues.sei)
      × (left.caps.sei ≡ st.caps.sei)

  module _ (laws : IsStdHeap heaps.scte comparator) where
    IsMarked-first :
        (x : SpliceInfoSection) (st left : Extraction)
        (expected : List (Metadata SpliceInfoSection))
        → IsHeap comparator st.queues.scte
        → IsMarked expected (push_section av_rescale_q heaps input_id pkt x st) left
        → IsMarked (tagged av_rescale_q heaps input_id pkt st 0 x ∷ expected) st left
    unfolding push_section push_scte push
    IsMarked-first x st left expected h (heaped, same, sei, caps) =
        let m : Metadata SpliceInfoSection = tagged av_rescale_q heaps input_id pkt st 0 x in
        let q : List (Metadata SpliceInfoSection) = st.queues.scte in
        (
          heaped,
          λ p. omega (
            arith,
            same p,
            laws.push_SameBag q m h p,
            count-append p expected (heaps.scte.push_heap comparator (q ++ (m ∷ []))),
            count-append p expected q,
          ),
          sei,
          caps,
        )

    push_section-IsHeap :
        (x : SpliceInfoSection) (st : Extraction)
        → IsHeap comparator st.queues.scte
        → IsHeap comparator (push_section av_rescale_q heaps input_id pkt x st).queues.scte
    unfolding push_section push_scte push
    push_section-IsHeap x st h = laws.push_IsHeap st.queues.scte _ h

    run-IsMarked :
        (sections : List SpliceInfoSection) (st : Extraction)
        → IsHeap comparator st.queues.scte
        → IsMarked (marker_metadata st sections) st (run sections st)
    unfolding push_sections
    run-IsMarked [] st h = (h, λ p. refl, refl, refl)
    run-IsMarked (x ∷ sections) st h =
        let next : Extraction = push_section av_rescale_q heaps input_id pkt x st in
        let marked = run-IsMarked sections next (push_section-IsHeap x st h) in
        IsMarked-first x st (run sections next) (marker_metadata st sections) h
          (rw (marker_metadata-after x st sections) at marked)

    -- With standard heap functions and a queue that is a heap: for a packet of sections written one
    -- behind the other, each readable as in Scte35.RoundTrip.Layout, the extractor throws nothing and
    -- returns false. The queue is a heap again, and has besides what it had exactly the packet's
    -- sections, in one input's name, at the packet's rescaled times and with order 0. The queue of
    -- captions is as it was.
    pub extract_scte-IsMarked :
        (c : Compiler) (sections : List SpliceInfoSection) (st : Extraction)
        → All (IsReadable c) sections
        → pkt.bytes ≡ emit_all emit_section sections
        → IsHeap comparator st.queues.scte
        → (left : Extraction) × (extract_scte av_rescale_q heaps input_id pkt c st
            ≡ (ok false, left))
          × IsMarked (marker_metadata st sections) st left
    unfolding extract_scte
    extract_scte-IsMarked c sections st h bytes heaped =
        let read : packets (section_format c) pkt.bytes ≡ (sections, some (ok tt)) =
          ap (packets (section_format c)) bytes ∙ packets-emit_sections c sections h in
        (run sections st, rw read, run-IsMarked sections st heaped)
