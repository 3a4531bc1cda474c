-- ===== src/Proc/Extractor/Tests.antt =====
-- The extractor at a concrete packet: an access unit delimiter, a caption, a slice and a caption.
use metamix.Base.{ℕ, List, [], ◌∷◌, ◌≡◌, ◌<◌, ◌^◌, refl, false, some, inr, arith}
use metamix.Base.Int.{ℤ, pos, ◌+ℤ◌}
use metamix.Binary.Outcome.{ok}
use metamix.Clock.{TimeBase, clock_relative}
use metamix.H264.Rbsp.Size.{start_codes}
use metamix.H264.Nalu.{is_valid, nalu_type, front, is_empty}
use metamix.H264.Nalu.Framing.{emit_nalus}
use metamix.H264.Sei.{SeiPayload}
use metamix.H264.StdSeis.{build_cc_reset_metadata}
use metamix.MetadataQueue.{Metadata, comparator, drop_id, remove_if}
use metamix.MetadataQueue.Heap.{IsHeap}
use metamix.MetadataQueue.Group.{QueueGroup, StdHeaps}
use metamix.MetadataQueue.Sorted.{sorted_heap, sorted_heap-IsStdHeap}
use metamix.Proc.Packet.{Packet, stamp}
use metamix.Proc.Extractor.{Extraction, extract_sei, extract_scte, post_exit}
use metamix.Proc.Extractor.Captions.{
  Part, plain, captioned, nalus_of, payloads_of, caption_metadata, IsPushed, extract_sei-IsPushed,
}
use metamix.Proc.Extractor.Markers.{marker_metadata, IsMarked, extract_scte-IsMarked}
use metamix.Scte35.Types.{SpliceInfoSection, time_signal, has_value}
use metamix.Scte35.Emitter.{emit_all, hint_command, hint_splice_time}
use metamix.Scte35.Emitter.Section.{emit_section, compute_section_length}
use metamix.Scte35.Parser.Descriptors.{Compiler, left_to_right}
use metamix.Scte35.RoundTrip.Layout.{IsReadable}
use metamix.Proc.Extractor.PostExit.{IsReplaced, post_exit-IsReplaced}

abbrev same_base : ℤ → TimeBase → TimeBase → ℤ
same_base a bq cq = a

abbrev heaps : StdHeaps
heaps = record { sei = sorted_heap; scte = sorted_heap }

abbrev caption : SeiPayload
caption = record { payload_type = 4; bytes = 0xB5 ∷ 0x00 ∷ 0x31 ∷ [] }

abbrev parts : List Part
parts =
    plain (0x09 ∷ 0xF0 ∷ []) ∷ captioned caption ∷ plain (0x65 ∷ 0x88 ∷ []) ∷ captioned caption ∷ []

abbrev packet : Packet
packet = record { bytes = emit_nalus (nalus_of parts); pts = pos 7; dts = pos 5 }

abbrev nanoseconds : TimeBase
nanoseconds = record { num = 1; den = 1_000_000_000 }

-- An item of another input is in the queue.
abbrev other : Metadata SeiPayload
other = build_cc_reset_metadata 2 (stamp (pos 1))

abbrev start : Extraction
start = record {
  pts_rescaler = clock_relative (pos 100) nanoseconds nanoseconds;
  dts_rescaler = clock_relative (pos 100) nanoseconds nanoseconds;
  caps = record { sei = false; scte = false };
  queues = record { sei = other ∷ []; scte = [] };
}

single-IsHeap : IsHeap comparator (other ∷ [])
single-IsHeap i x y ex ey = cc

extract_sei-IsPushed_example :
    (left : Extraction) × (extract_sei same_base heaps 1 packet start ≡ (ok false, left))
    × IsPushed same_base heaps 1 packet
        (caption_metadata same_base heaps 1 packet start 0 (payloads_of parts))
        start
        left
unfolding is_valid nalu_type front is_empty start_codes
extract_sei-IsPushed_example =
    extract_sei-IsPushed same_base heaps 1 packet sorted_heap-IsStdHeap parts start
      (
        ((omega arith, omega arith), refl),
        (
          ((omega arith, omega arith, omega arith), refl),
          (
            ((omega arith, omega arith), refl),
            (((omega arith, omega arith, omega arith), refl), tt),
          ),
        ),
      )
      refl single-IsHeap

abbrev ordered : Compiler
ordered = record { operands = left_to_right; arguments = left_to_right }

abbrev signal : ℕ → SpliceInfoSection
signal time = record {
  encrypted_packet = false;
  encryption_algorithm = 0;
  pts_adjustment = 0;
  cw_index = 0;
  tier = 0xfff;
  command = time_signal (record { pts_time = some time });
  descriptors = [];
}

signal-IsReadable : (time : ℕ) → time < 2 ^ 33 → IsReadable ordered (signal time)
unfolding hint_command hint_splice_time compute_section_length has_value
signal-IsReadable time h = record {
  clear = refl;
  algorithm = omega arith;
  pts_adjustment = omega arith;
  cw_index = omega arith;
  tier = omega arith;
  command = h;
  hinted = refl;
  short = omega arith;
  tier_intact = inr refl;
  descriptors = tt;
  section_length = omega arith;
}

abbrev signals : List SpliceInfoSection
signals = signal 900_000 ∷ signal 1_800_000 ∷ []

abbrev signal_packet : Packet
signal_packet = record { bytes = emit_all emit_section signals; pts = pos 7; dts = pos 5 }

no_marker-IsHeap : IsHeap (comparator {V = SpliceInfoSection}) []
no_marker-IsHeap i x y ex ey = cc

extract_scte-IsMarked_example :
    (left : Extraction) × (extract_scte same_base heaps 1 signal_packet ordered start
      ≡ (ok false, left))
    × IsMarked same_base heaps 1 signal_packet
        (marker_metadata same_base heaps 1 signal_packet start signals)
        start
        left
extract_scte-IsMarked_example =
    extract_scte-IsMarked same_base heaps 1 signal_packet sorted_heap-IsStdHeap ordered signals
      start
      (signal-IsReadable 900_000 (omega arith), (signal-IsReadable 1_800_000 (omega arith), tt))
      refl no_marker-IsHeap

abbrev two_inputs : QueueGroup
two_inputs = record { sei = other ∷ build_cc_reset_metadata 1 (stamp (pos 9)) ∷ []; scte = [] }

post_exit-IsReplaced_example :
    IsHeap comparator (post_exit heaps 1 (pos 40) two_inputs).sei
    × IsReplaced 1
        (build_cc_reset_metadata 1 (stamp (pos 41)) ∷ [])
        two_inputs.sei
        (post_exit heaps 1 (pos 40) two_inputs).sei
    × IsReplaced 1 [] two_inputs.scte (post_exit heaps 1 (pos 40) two_inputs).scte
unfolding drop_id remove_if build_cc_reset_metadata ◌+ℤ◌
post_exit-IsReplaced_example =
    post_exit-IsReplaced heaps sorted_heap-IsStdHeap 1 (pos 40) two_inputs single-IsHeap
