-- ===== src/Proc/Relay/Tests.antt =====
-- A caption of input 1 on its way into a packet of the output.
use metamix.Base.{ℕ, ◌++◌, List, [], ◌∷◌, ◌≡◌, refl, false, none, some, arith}
use metamix.Base.Int.{ℤ, pos, ◌+ℤ◌, ◌-ℤ◌}
use metamix.Binary.Outcome.{ok}
use metamix.Binary.Parser.Drain.{packets}
use metamix.Clock.{TimeBase, TsRescaler, clock_relative, rescale_to_clock}
use metamix.H264.Rbsp.Size.{start_codes}
use metamix.H264.Nalu.{is_valid, nalu_type, nalu_format, front, is_empty}
use metamix.H264.Nalu.Framing.{emit_nalus}
use metamix.H264.Sei.{SeiPayload}
use metamix.H264.Sei.Extract.{sei_nalu_of, nalu_payloads}
use metamix.InputManager.{AbstractInput, InputSpec}
use metamix.Inputs.{new_user_defined_input}
use metamix.MetadataQueue.Group.{StdHeaps}
use metamix.MetadataQueue.Sorted.{sorted_heap, sorted_heap-IsStdHeap}
use metamix.Proc.Packet.{Packet, stamp}
use metamix.Proc.Extractor.{Extraction, extract_sei}
use metamix.Proc.Extractor.Captions.{Part, plain, captioned, nalus_of}
use metamix.Proc.Injector.{Injection, Injected, inject, is_leading, non_cc_seis}
use metamix.Proc.Injector.Remux.{middle}
use metamix.Proc.Relay.{extract_sei-inject}

abbrev same_base : ℤ → TimeBase → TimeBase → ℤ
same_base a bq cq = a

abbrev heaps : StdHeaps
heaps = record { sei = sorted_heap; scte = sorted_heap }

abbrev nanoseconds : TimeBase
nanoseconds = record { num = 1; den = 1_000_000_000 }

abbrev payload_of : ℕ → SeiPayload
payload_of last = record { payload_type = 4; bytes = 0xB5 ∷ 0x05 ∷ last ∷ [] }

abbrev parts : List Part
parts = plain (0x09 ∷ 0xF0 ∷ []) ∷ captioned (payload_of 1) ∷ []

abbrev source : Packet
source = record { bytes = emit_nalus (nalus_of parts); pts = pos 7; dts = pos 5 }

abbrev lead : List (List ℕ)
lead = (0x09 ∷ 0xF0 ∷ []) ∷ []

abbrev rest : List (List ℕ)
rest = (0x65 ∷ 0x88 ∷ []) ∷ []

-- The output's own packet has another caption.
abbrev output : Packet
output = record {
  bytes = emit_nalus (lead ++ (middle (some (payload_of 2)) ++ rest));
  pts = pos 9;
  dts = pos 8;
}

abbrev rescaler : TsRescaler
rescaler = clock_relative (pos 100) nanoseconds nanoseconds

abbrev start : Extraction
start = record {
  pts_rescaler = rescaler;
  dts_rescaler = rescaler;
  caps = record { sei = false; scte = false };
  queues = record { sei = []; scte = [] };
}

abbrev news : InputSpec
news = record {
  id = 1;
  name = b'n' ∷ [];
  source = [];
  sink = [];
  source_format = none;
  sink_format = none;
  is_virtual = false;
}

abbrev input : AbstractInput
input = new_user_defined_input news

abbrev injection : Injection
injection = record { pts_rescaler = rescaler; prev_pts = stamp (pos 90); prev_input_id = some 1 }

extract_sei-inject_example :
    (left : Extraction) × (extract_sei same_base heaps 1 source start ≡ (ok false, left))
    × (r : Injected) × (inject same_base heaps output (pos 110) rescaler injection input left.queues
        ≡ ok r)
    × (buf : List ℕ) × (r.bytes ≡ ok buf)
    × (packets nalu_format buf ≡ (lead ++ (sei_nalu_of (payload_of 1) ∷ rest), some (ok tt)))
    × (nalu_payloads (sei_nalu_of (payload_of 1)) ≡ ok (payload_of 1 ∷ [], some (ok tt)))
unfolding is_valid nalu_type front is_empty start_codes is_leading non_cc_seis rescale_to_clock ◌+ℤ◌
    ◌-ℤ◌ new_user_defined_input
extract_sei-inject_example =
    extract_sei-inject same_base heaps sorted_heap-IsStdHeap source output parts (payload_of 1)
      start input (pos 110) rescaler injection lead (some (payload_of 2)) rest
      (((omega arith, omega arith), refl), (((omega arith, omega arith, omega arith), refl), tt))
      refl refl refl (omega arith, omega arith, omega arith) refl refl refl refl (omega arith)
      (omega arith) refl ((((omega arith, omega arith), refl), refl), tt)
      ((omega arith, omega arith, omega arith), refl) (((omega arith, omega arith), refl), tt) refl
