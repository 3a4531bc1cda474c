-- ===== src/Proc/Extractor.antt =====
-- SeiExtractor and ScteExtractor of src/proc/extractor.cpp, with UserDefinedInput::push, and
-- post_exit. av_rescale_q and the heap functions are parameters. What a packet has pushed before an
-- exception stays pushed.
pub mod Captions
pub mod Markers
pub mod PostExit
mod Tests
use metamix.Base.{ℕ, zero, suc, ◌+◌, ◌%◌, List, [], ◌∷◌, Bool, true, false, not, Option, none, some}
use metamix.Base.{if◌then◌else◌, ◌==◌, drop}
use metamix.Base.Int.{ℤ, pos, ◌+ℤ◌}
use metamix.Binary.Outcome.{Outcome, ok, parse_error, runtime_error, fault}
use metamix.Binary.Parser.Drain.{packets}
use metamix.Clock.{TimeBase, TsRescaler, rescale_to_clock}
use metamix.H264.Rbsp.{copy_ebsp_to_sodb}
use metamix.H264.Nalu.{is_valid, nalu_type, sei_nalu, nalu_format}
use metamix.H264.Sei.{SeiPayload, user_data_registered, sei_format}
use metamix.H264.StdSeis.{build_cc_reset_metadata}
use metamix.InputManager.{InputCapabilities}
use metamix.MetadataQueue.{Metadata}
use metamix.MetadataQueue.Group.{QueueGroup, StdHeaps, push_sei, push_scte, drop_id_all}
use metamix.Proc.Packet.{Packet, stamp, ending}
use metamix.Scte35.Types.{SpliceInfoSection}
use metamix.Scte35.Parser.Descriptors.{Compiler}
use metamix.Scte35.Parser.Section.{section_format}

-- The rescalers of an extractor, the capabilities of its input, and the queues.
pub record Extraction : Type 0 where
  pub pts_rescaler : TsRescaler
  pub dts_rescaler : TsRescaler
  pub caps : InputCapabilities
  pub queues : QueueGroup

-- An `int` that is not negative, by its distance from the smallest one.
abbrev pub int_of : ℕ → ℕ
int_of n = 2_147_483_648 + n

-- An exception in the body of a loop ends it.
abbrev pub unless_thrown :
    {A : Type 0} → Outcome (Unit {0}) × A → (A → Outcome (Unit {0}) × A) → Outcome (Unit {0}) × A
unless_thrown (ok _, s) next = next s
unless_thrown (parse_error e, s) next = (parse_error e, s)
unless_thrown (runtime_error, s) next = (runtime_error, s)
unless_thrown (fault, s) next = (fault, s)

-- catch (BinaryParseError &): logged. The result of `process` is false.
abbrev pub caught : Outcome (Unit {0}) → Outcome Bool
caught (ok _) = ok false
caught (parse_error _) = ok false
caught runtime_error = runtime_error
caught fault = fault

module _ (av_rescale_q : ℤ → TimeBase → TimeBase → ℤ) (heaps : StdHeaps) (input_id : ℕ)
    (pkt : Packet) where
  -- The metadata of a packet, with the two rescaled timestamps.
  abbrev pub tagged : {V : Type 0} → Extraction → ℕ → V → Metadata V
  tagged st order val = record {
    input_id = input_id;
    pts = stamp (rescale_to_clock av_rescale_q st.pts_rescaler pkt.pts).0;
    dts = stamp (rescale_to_clock av_rescale_q st.dts_rescaler pkt.dts).0;
    order = int_of order;
    val = val;
  }

  -- The rescaling of both timestamps and input.push<SeiKind>, which declares the capability.
  unfoldable pub push_caption : ℕ → SeiPayload → Extraction → Extraction
  push_caption order sei st = record {
    pts_rescaler = (rescale_to_clock av_rescale_q st.pts_rescaler pkt.pts).1;
    dts_rescaler = (rescale_to_clock av_rescale_q st.dts_rescaler pkt.dts).1;
    caps = record { sei = true; scte = st.caps.scte };
    queues = push_sei heaps st.queues (tagged st order sei);
  }

  -- while (sei_parser), with `order` and the state behind it.
  unfoldable pub push_captions : List SeiPayload → ℕ × Extraction → ℕ × Extraction
  push_captions [] s = s
  push_captions (sei ∷ seis) (order, st) = push_captions seis (
      if sei.payload_type == user_data_registered
      then (suc order, push_caption order sei st)
      else (order, st))

  -- The branch for a SEI NALU, on what copy_ebsp_to_sodb gives.
  unfoldable pub push_sodb :
      Outcome (List ℕ) → ℕ × Extraction → Outcome (Unit {0}) × (ℕ × Extraction)
  push_sodb (ok sodb) s =
      let (seis, ended) = packets sei_format (drop 1 sodb) in (ending ended, push_captions seis s)
  push_sodb (parse_error e) s = (parse_error e, s)
  push_sodb runtime_error s = (runtime_error, s)
  push_sodb fault s = (fault, s)

  unfoldable pub process_nalu : List ℕ → ℕ × Extraction → Outcome (Unit {0}) × (ℕ × Extraction)
  process_nalu nalu s =
      if not (is_valid nalu)
      then (ok tt, s)
      else if nalu_type nalu == sei_nalu
      then push_sodb (copy_ebsp_to_sodb nalu) s
      else (ok tt, s)

  -- while (parser): the body for each NALU, and then how the loop itself ends.
  unfoldable pub process_nalus :
      List (List ℕ) → Outcome (Unit {0}) → ℕ × Extraction → Outcome (Unit {0}) × (ℕ × Extraction)
  process_nalus [] ended s = (ended, s)
  process_nalus (nalu ∷ nalus) ended s =
      unless_thrown (process_nalu nalu s) (process_nalus nalus ended)

  -- SeiExtractor::process
  unfoldable pub extract_sei : Extraction → Outcome Bool × Extraction
  extract_sei st =
      let (nalus, ended) = packets nalu_format pkt.bytes in
      let (r, (order, left)) = process_nalus nalus (ending ended) (0, st) in (caught r, left)

  unfoldable pub push_section : SpliceInfoSection → Extraction → Extraction
  push_section section st = record {
    pts_rescaler = (rescale_to_clock av_rescale_q st.pts_rescaler pkt.pts).1;
    dts_rescaler = (rescale_to_clock av_rescale_q st.dts_rescaler pkt.dts).1;
    caps = record { sei = st.caps.sei; scte = true };
    queues = push_scte heaps st.queues (tagged st 0 section);
  }

  unfoldable pub push_sections : List SpliceInfoSection → Extraction → Extraction
  push_sections [] st = st
  push_sections (section ∷ sections) st = push_sections sections (push_section section st)

  -- ScteExtractor::process
  unfoldable pub extract_scte : Compiler → Extraction → Outcome Bool × Extraction
  extract_scte c st =
      let (sections, ended) = packets (section_format c) pkt.bytes in
      (caught (ending ended), push_sections sections st)

-- post_exit, at the time `now` of the clock
unfoldable pub post_exit : StdHeaps → ℕ → ℤ → QueueGroup → QueueGroup
post_exit heaps input_id now g =
    push_sei heaps (drop_id_all input_id g).1
      (build_cc_reset_metadata input_id (stamp (now +ℤ pos 1)))
