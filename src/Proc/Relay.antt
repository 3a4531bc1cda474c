-- ===== src/Proc/Relay.antt =====
-- A caption's way from an input's packet through the queue into a packet of the output.
mod Tests
use metamix.Base.{
  ℕ, zero, suc, ◌+◌, ◌≤◌, ◌<◌, List, [], ◌∷◌, ◌++◌, ◌≡◌, refl, sym, ap, ◌∙◌, Bool, true, false,
  ◌&&◌, not, Option, none, some, arith, All, ltb, leb, ◌==◌, ==_iff, ==_self, append-nil,
  if◌then◌else◌, lt→ltb, le→leb,
}
use metamix.Base.Int.{ℤ, pos, ◌+ℤ◌}
use metamix.Binary.Outcome.{Outcome, ok, bind}
use metamix.Binary.Parser.Drain.{packets}
use metamix.Clock.{TimeBase, TsRescaler, rescale_to_clock}
use metamix.H264.Rbsp.Size.{start_codes}
use metamix.H264.Nalu.{nalu_format}
use metamix.H264.Nalu.Framing.{emit_nalus}
use metamix.H264.Sei.{SeiPayload, user_data_registered}
use metamix.H264.Sei.Emit.{IsShort}
use metamix.H264.Sei.Extract.{sei_nalu_of, nalu_payloads}
use metamix.InputManager.{AbstractInput, user_defined_input, same_string}
use metamix.Inputs.{query_sei, run_query_sei, if_any, or_empty, frame_end}
use metamix.MetadataQueue.{Metadata, comparator}
use metamix.MetadataQueue.Group.{QueueGroup, StdHeaps, pop_all_sei}
use metamix.MetadataQueue.Heap.{IsHeap, IsStdHeap, SameBag}
use metamix.MetadataQueue.Popped.{in_frame}
use metamix.MetadataQueue.PopAll.{pop_all-lem}
use metamix.MetadataQueue.Single.{IsEquality, drained_single}
use metamix.Options.Start.{same_string_self}
use metamix.Proc.Packet.{Packet, stamp}
use metamix.Proc.Extractor.{Extraction, tagged, extract_sei}
use metamix.Proc.Extractor.Captions.{
  Part, IsPart, nalus_of, payloads_of, caption_metadata, extract_sei-IsPushed,
}
use metamix.Proc.Injector.{
  Injection, Injected, inject, remux, reset_if_changed, non_cc_seis, or_unchanged,
}
use metamix.Proc.Injector.Remux.{IsLeading, IsKept, IsMiddle, middle, payloads}
use metamix.Proc.RoundTrip.{remux-exchanged}

same_string_sound : (a b : List ℕ) → same_string a b ≡ true → a ≡ b
unfolding same_string
same_string_sound [] [] h = refl
same_string_sound [] (y ∷ b) h = cc
same_string_sound (x ∷ a) [] h = cc
same_string_sound (x ∷ a) (y ∷ b) h =
    let e : x ≡ y = (==_iff x y).0 (ground arith) in
    let rest = same_string_sound a b (ground arith) in rw (e, rest)

same_item : Metadata SeiPayload → Metadata SeiPayload → Bool
same_item a b =
    (a.input_id == b.input_id)
    && (a.pts == b.pts)
    && (a.dts == b.dts)
    && (a.order == b.order)
    && (a.val.payload_type == b.val.payload_type)
    && same_string a.val.bytes b.val.bytes

same_item-IsEquality : IsEquality same_item
unfolding same_item
same_item-IsEquality = record {
  reflexive = λ x. rw (
    ==_self x.input_id,
    ==_self x.pts,
    ==_self x.dts,
    ==_self x.order,
    ==_self x.val.payload_type,
    same_string_self x.val.bytes,
  );
  sound = λ x y h.
      let id : x.input_id ≡ y.input_id = ground arith in
      let pts : x.pts ≡ y.pts = ground arith in
      let dts : x.dts ≡ y.dts = ground arith in
      let order : x.order ≡ y.order = ground arith in
      let ty : x.val.payload_type ≡ y.val.payload_type = ground arith in
      let bytes : x.val.bytes ≡ y.val.bytes =
        same_string_sound x.val.bytes y.val.bytes (ground arith) in
      λ i. record {
        input_id = id i;
        pts = pts i;
        dts = dts i;
        order = order i;
        val = record { payload_type = ty i; bytes = bytes i };
      };
}

module _ (av_rescale_q : ℤ → TimeBase → TimeBase → ℤ) (heaps : StdHeaps)
    (laws : IsStdHeap heaps.sei comparator) where
  -- A query that finds one item answers with it.
  query_single :
      (input : AbstractInput) (since until : ℕ) (x : Metadata SeiPayload) (g : QueueGroup)
      → input.input_class ≡ user_defined_input
      → IsHeap comparator g.sei
      → SameBag g.sei (x ∷ [])
      → in_frame input.spec.id since until x ≡ true
      → (left : QueueGroup) × (query_sei heaps input since until g ≡ ok (x ∷ [], left))
  unfolding query_sei run_query_sei pop_all_sei
  query_single input since until x g c h bag framed =
      let (out, left, e, d) = pop_all-lem heaps.sei laws input.spec.id since until g.sei h in
      let single =
        drained_single same_item same_item-IsEquality input.spec.id since until x g.sei out left bag
          framed d in
      (record g { sei = left }, simp (c, e, single))

  -- What the extractor leaves for one caption.
  caption_metadata-single :
      (id : ℕ) (source : Packet) (st : Extraction) (p : SeiPayload)
      → (p.payload_type == user_data_registered) ≡ true
      → caption_metadata av_rescale_q heaps id source st 0 (p ∷ [])
        ≡ tagged av_rescale_q heaps id source st 0 p ∷ []
  caption_metadata-single id source st p h = rw h

  inject_single :
      (output : Packet) (time : ℤ) (rescaler : TsRescaler) (inj : Injection) (input : AbstractInput)
      (x : Metadata SeiPayload) (g left : QueueGroup) (buf : List ℕ)
      → inj.prev_input_id ≡ some input.spec.id
      → query_sei heaps input inj.prev_pts (stamp (time +ℤ pos 1)) g ≡ ok (x ∷ [], left)
      → remux (x ∷ []) output.bytes ≡ ok buf
      → (r : Injected) × (inject av_rescale_q heaps output time rescaler inj input g ≡ ok r)
        × (r.bytes ≡ ok buf)
  unfolding inject
  inject_single output time rescaler inj input x g left buf prev e written =
      let found : reset_if_changed input.spec.id (stamp time) inj.prev_input_id ≡ [] =
        rw (prev, ==_self input.spec.id) in
      let result : or_unchanged output.bytes (
            remux (reset_if_changed input.spec.id (stamp time) inj.prev_input_id ++ (x ∷ []))
              output.bytes)
          ≡ ok buf =
        rw (found, written) in
      let r : Injected = record {
        bytes = or_unchanged output.bytes (
            remux (reset_if_changed input.spec.id (stamp time) inj.prev_input_id ++ (x ∷ []))
              output.bytes);
        state = record {
          pts_rescaler = rescaler;
          prev_pts = stamp (time +ℤ pos 1);
          prev_input_id = some input.spec.id;
        };
        queues = left;
      } in
      (r, rw e, result)

  -- A time that is the item's, inside the frame.
  tagged-in_frame :
      (id since until : ℕ) (source : Packet) (st : Extraction) (p : SeiPayload)
      → since ≤ stamp (rescale_to_clock av_rescale_q st.pts_rescaler source.pts).0
      → stamp (rescale_to_clock av_rescale_q st.pts_rescaler source.pts).0 < until
      → in_frame id since until (tagged av_rescale_q heaps id source st 0 p) ≡ true
  tagged-in_frame id since until source st p le lt = rw (==_self id, le→leb _ _ le, lt→ltb _ _ lt)

  -- With standard heap functions: a packet of a user input, as in Proc.Extractor.Captions, whose one
  -- SEI payload is a caption, short and without start codes, is extracted into an empty queue. Then a
  -- packet as in Proc.Injector.Remux, whose SEI NALU, if it has one, holds a caption, is injected from
  -- this input, which the previous packet was injected from too; and the caption's time is in the
  -- frame, from the previous frame's end to the packet's time. Then the packet is written with its
  -- SEI NALU exchanged for one that an extractor reads as this very caption, and its other NALUs as
  -- they were.
  pub extract_sei-inject :
      (source output : Packet) (parts : List Part) (p : SeiPayload) (st : Extraction)
      (input : AbstractInput) (time : ℤ) (rescaler : TsRescaler) (inj : Injection)
      (lead : List (List ℕ)) (sei : Option SeiPayload) (rest : List (List ℕ))
      → All IsPart parts
      → source.bytes ≡ emit_nalus (nalus_of parts)
      → payloads_of parts ≡ p ∷ []
      → (p.payload_type == user_data_registered) ≡ true
      → IsShort p
      → start_codes p.bytes ≡ 0
      → st.queues.sei ≡ []
      → input.input_class ≡ user_defined_input
      → inj.prev_input_id ≡ some input.spec.id
      → inj.prev_pts ≤ stamp (rescale_to_clock av_rescale_q st.pts_rescaler source.pts).0
      → stamp (rescale_to_clock av_rescale_q st.pts_rescaler source.pts).0 < stamp (time +ℤ pos 1)
      → output.bytes ≡ emit_nalus (lead ++ (middle sei ++ rest))
      → All IsLeading lead
      → IsMiddle sei rest
      → All IsKept rest
      → non_cc_seis (payloads sei) ≡ []
      → (left : Extraction) × (extract_sei av_rescale_q heaps input.spec.id source st
          ≡ (ok false, left))
        × (r : Injected) × (inject av_rescale_q heaps output time rescaler inj input left.queues
            ≡ ok r)
        × (buf : List ℕ) × (r.bytes ≡ ok buf)
        × (packets nalu_format buf ≡ (lead ++ (sei_nalu_of p ∷ rest), some (ok tt)))
        × (nalu_payloads (sei_nalu_of p) ≡ ok (p ∷ [], some (ok tt)))
  extract_sei-inject source output parts p st input time rescaler inj lead sei rest hp hb one ty
        short codes empty c prev le lt ob hl hm hr stripped =
      let id : ℕ = input.spec.id in
      let x : Metadata SeiPayload = tagged av_rescale_q heaps id source st 0 p in
      let (left, extracted, (heaped, bag, _, _)) =
        extract_sei-IsPushed av_rescale_q heaps id source laws parts st hp hb
          (rw empty (λ i a b ea eb. cc)) in
      let expected : caption_metadata av_rescale_q heaps id source st 0 (payloads_of parts)
            ++ st.queues.sei
          ≡ x ∷ [] =
        rw (one, caption_metadata-single id source st p ty, empty) in
      let single : SameBag left.queues.sei (x ∷ []) = rw expected at bag in
      let (after, queried) =
        query_single input inj.prev_pts (stamp (time +ℤ pos 1)) x left.queues c heaped single
          (tagged-in_frame id inj.prev_pts (stamp (time +ℤ pos 1)) source st p le lt) in
      let (buf, written, read, payload) =
        remux-exchanged lead sei rest x hl hm hr stripped short codes in
      let remuxed : remux (x ∷ []) output.bytes ≡ ok buf = ap (remux (x ∷ [])) ob ∙ written in
      let (r, injected, bytes) =
        inject_single output time rescaler inj input x left.queues after buf prev queried remuxed in
      (left, extracted, r, injected, buf, bytes, read, payload)
