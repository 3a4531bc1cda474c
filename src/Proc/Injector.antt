-- ===== src/Proc/Injector.antt =====
-- src/proc/injector.cpp: ClockTicker and SeiInjector. av_rescale_q and the heap functions are
-- parameters. `ff::grow_packet` is taken to find the memory that it asks for. The assertions are
-- compiled out, as in the release build that README.md describes.
pub mod Remux
pub mod Frames
mod Tests
use metamix.Base.{ℕ, List, [], ◌∷◌, ◌++◌, Bool, true, false, ◌||◌, Option, none, some}
use metamix.Base.{if◌then◌else◌, ◌==◌, drop}
use metamix.Base.Int.{ℤ, pos, ◌+ℤ◌, ◌-ℤ◌}
use metamix.Binary.Outcome.{Outcome, ok, parse_error, runtime_error, fault, bind}
use metamix.Binary.Parser.Drain.{packets}
use metamix.Clock.{TimeBase, TsRescaler, rescale_to_clock, TsTicker, tick}
use metamix.H264.Rbsp.{copy_ebsp_to_sodb}
use metamix.H264.Nalu.{
  is_valid, nalu_type, sei_nalu, sps_nalu, pps_nalu, aud_nalu, nalu_format, emit_avcc_nalu,
}
use metamix.H264.Sei.{SeiPayload, user_data_registered, sei_format, emit_sei_payloads_to_avcc_nalu}
use metamix.H264.StdSeis.{build_cc_reset_metadata}
use metamix.InputManager.{AbstractInput, InputManager, get_current_sei_input}
use metamix.Inputs.{query_sei}
use metamix.MetadataQueue.{Metadata}
use metamix.MetadataQueue.Group.{QueueGroup, StdHeaps}
use metamix.Proc.Packet.{Packet, stamp, ending}

-- ClockTicker, with the clock inside its ticker.
pub record Ticking : Type 0 where
  pub ticker : TsTicker
  pub pts_rescaler : TsRescaler

-- ClockTicker::process; its result is always false.
unfoldable pub tick_clock : (ℤ → TimeBase → TimeBase → ℤ) → Packet → Ticking → Ticking
tick_clock av_rescale_q pkt st =
    let (rescaled_pts, rescaler) = rescale_to_clock av_rescale_q st.pts_rescaler pkt.pts in
    record { ticker = tick st.ticker rescaled_pts; pts_rescaler = rescaler }

-- The payloads that strip_cc keeps.
unfoldable pub non_cc_seis : List SeiPayload → List SeiPayload
non_cc_seis [] = []
non_cc_seis (sei ∷ seis) =
    let rest = non_cc_seis seis in
    if sei.payload_type == user_data_registered then rest else sei ∷ rest

unfoldable pub strip_cc : List ℕ → Outcome (List SeiPayload)
strip_cc nalu = bind (copy_ebsp_to_sodb nalu) λ sodb.
    let (seis, ended) = packets sei_format (drop 1 sodb) in
    bind (ending ended) λ _. ok (non_cc_seis seis)

-- The NALUs that the collecting loop keeps.
unfoldable pub valid_nalus : List (List ℕ) → List (List ℕ)
valid_nalus [] = []
valid_nalus (nalu ∷ nalus) =
    let rest = valid_nalus nalus in if is_valid nalu then nalu ∷ rest else rest

unfoldable pub is_leading : List ℕ → Bool
is_leading nalu =
    (nalu_type nalu == aud_nalu) || (nalu_type nalu == sps_nalu) || (nalu_type nalu == pps_nalu)

-- Where the loop over the leading NALUs breaks.
unfoldable pub split_leading : List (List ℕ) → List (List ℕ) × List (List ℕ)
split_leading [] = ([], [])
split_leading (nalu ∷ nalus) =
    let (lead, rest) = split_leading nalus in
    if is_leading nalu then (nalu ∷ lead, rest) else ([], nalu ∷ nalus)

-- The payloads kept of the first NALU, if it has the type SEI, and the NALUs behind.
unfoldable pub take_sei : List (List ℕ) → Outcome (List SeiPayload × List (List ℕ))
take_sei [] = ok ([], [])
take_sei (nalu ∷ nalus) =
    if nalu_type nalu == sei_nalu
    then bind (strip_cc nalu) (λ seis. ok (seis, nalus))
    else ok ([], nalu ∷ nalus)

-- The calls of emit_avcc_nalu in the two remuxing loops.
unfoldable pub emit_avcc_nalus : List (List ℕ) → List ℕ
emit_avcc_nalus [] = []
emit_avcc_nalus (nalu ∷ nalus) = emit_avcc_nalu nalu ++ emit_avcc_nalus nalus

abbrev pub vals : {V : Type 0} → List (Metadata V) → List V
vals [] = []
vals (meta ∷ metas) = meta.val ∷ vals metas

-- The try block: `buf` for the bytes of a packet and the metadata found.
unfoldable pub remux : List (Metadata SeiPayload) → List ℕ → Outcome (List ℕ)
remux found bytes =
    let (nalus, ended) = packets nalu_format bytes in
    bind (ending ended) λ _.
      let (lead, behind) = split_leading (valid_nalus nalus) in
      bind (take_sei behind) λ (seis, rest). ok (
        emit_avcc_nalus lead
        ++ (emit_sei_payloads_to_avcc_nalu (seis ++ vals found) ++ emit_avcc_nalus rest))

-- catch (BinaryParseError &): the packet is as it was.
abbrev pub or_unchanged : List ℕ → Outcome (List ℕ) → Outcome (List ℕ)
or_unchanged bytes (ok buf) = ok buf
or_unchanged bytes (parse_error e) = ok bytes
or_unchanged bytes runtime_error = runtime_error
or_unchanged bytes fault = fault

-- SeiInjector
pub record Injection : Type 0 where
  pub pts_rescaler : TsRescaler
  pub prev_pts : ℕ
  pub prev_input_id : Option ℕ

-- What a call of process leaves: the packet's bytes, unless an exception leaves the call, the
-- injector's state and the queues.
pub record Injected : Type 0 where
  pub bytes : Outcome (List ℕ)
  pub state : Injection
  pub queues : QueueGroup

-- operator!= of the id and the optional id
abbrev pub is_same_input : ℕ → Option ℕ → Bool
is_same_input input_id none = false
is_same_input input_id (some prev_id) = input_id == prev_id

abbrev pub reset_if_changed : ℕ → ℕ → Option ℕ → List (Metadata SeiPayload)
reset_if_changed input_id ts prev_id =
    if is_same_input input_id prev_id then [] else build_cc_reset_metadata input_id ts ∷ []

module _ (av_rescale_q : ℤ → TimeBase → TimeBase → ℤ) (heaps : StdHeaps) where
  -- The body of process behind the choice of the input, with the adjusted time of the packet.
  unfoldable pub inject :
      Packet → ℤ → TsRescaler → Injection → AbstractInput → QueueGroup → Outcome Injected
  inject pkt rescaled_pts rescaler st input g =
      let input_id = input.spec.id in
      let until = stamp (rescaled_pts +ℤ pos 1) in
      bind (query_sei heaps input st.prev_pts until g) λ (queried, left).
        let found = reset_if_changed input_id (stamp rescaled_pts) st.prev_input_id ++ queried in
        ok (record {
          bytes = or_unchanged pkt.bytes (remux found pkt.bytes);
          state = record {
            pts_rescaler = rescaler;
            prev_pts = until;
            prev_input_id = some input_id;
          };
          queues = left;
        })

  -- SeiInjector::process; its result is always false.
  unfoldable pub inject_sei : Packet → ℤ → InputManager → Injection → QueueGroup → Outcome Injected
  inject_sei pkt ts_adjustment manager st g =
      let (rescaled, rescaler) = rescale_to_clock av_rescale_q st.pts_rescaler pkt.pts in
      bind (get_current_sei_input manager)
        λ input. inject pkt (rescaled -ℤ ts_adjustment) rescaler st input g
