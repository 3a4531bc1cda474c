-- ===== src/Proc/Extractor/Captions.antt =====
-- What SeiExtractor::process pushes for a packet whose SEI NALUs were written by the emitter.
use metamix.Base.{
  ℕ, suc, List, [], ◌∷◌, ◌++◌, ◌≡◌, refl, ap, ◌∙◌, true, false, some, arith, All, ◌==◌,
  if◌then◌else◌, ◌&&◌, Bool-cases, inl, inr, drop,
}
use metamix.Base.Int.{ℤ}
use metamix.Binary.Outcome.{Outcome, ok, parse_error, runtime_error, fault, bind}
use metamix.Binary.Parser.Drain.{packets}
use metamix.Clock.{TimeBase}
use metamix.Clock.Rescale.{rescale_to_clock_again}
use metamix.H264.Rbsp.{copy_ebsp_to_sodb}
use metamix.H264.Rbsp.Size.{start_codes}
use metamix.H264.Nalu.{is_valid, nalu_type, nalu_format, sei_nalu, front, is_empty}
use metamix.H264.Nalu.Framing.{IsNalu, emit_nalus, packets-emit_nalus}
use metamix.H264.Sei.{SeiPayload, sei_format, user_data_registered}
use metamix.H264.Sei.Emit.{IsShort, length-emit_sei_payload, emit_sei_payload-le}
use metamix.H264.Sei.Extract.{sei_nalu_of, nalu_payloads, sei_nalu_payloads}
use metamix.MetadataQueue.{Metadata, comparator, push}
use metamix.MetadataQueue.Heap.{IsHeap, IsStdHeap, SameBag, count-append}
use metamix.MetadataQueue.Group.{StdHeaps, push_sei}
use metamix.Proc.Packet.{Packet}
use metamix.Proc.Extractor.{
  Extraction, tagged, push_caption, push_captions, push_sodb, process_nalu, process_nalus,
  extract_sei,
}

-- A NALU of a packet: one that the extractor passes over, or one SEI payload.
pub data Part : Type 0 where
  plain : List ℕ → Part
  captioned : SeiPayload → Part

abbrev pub nalu_of : Part → List ℕ
nalu_of (plain nalu) = nalu
nalu_of (captioned p) = sei_nalu_of p

abbrev pub nalus_of : List Part → List (List ℕ)
nalus_of [] = []
nalus_of (part ∷ parts) = nalu_of part ∷ nalus_of parts

abbrev pub payloads_of : List Part → List SeiPayload
payloads_of [] = []
payloads_of (plain nalu ∷ parts) = payloads_of parts
payloads_of (captioned p ∷ parts) = p ∷ payloads_of parts

-- A plain NALU is no valid SEI NALU. A payload is one that the emitter writes faithfully.
abbrev pub IsPart : Part → Type 0
IsPart (plain nalu) = IsNalu nalu × ((is_valid nalu && (nalu_type nalu == sei_nalu)) ≡ false)
IsPart (captioned p) = IsShort p × (start_codes p.bytes ≡ 0)

nalu_of-IsNalu : (part : Part) → IsPart part → IsNalu (nalu_of part)
nalu_of-IsNalu (plain nalu) h = h.0
nalu_of-IsNalu (captioned p) (h, hz) =
    (omega arith, omega (arith, length-emit_sei_payload p h, emit_sei_payload-le p h))

nalus_of-IsNalu : (parts : List Part) → All IsPart parts → All IsNalu (nalus_of parts)
nalus_of-IsNalu [] h = tt
nalus_of-IsNalu (part ∷ parts) (h, hs) = (nalu_of-IsNalu part h, nalus_of-IsNalu parts hs)

sei_nalu_of-is_valid : (p : SeiPayload) → is_valid (sei_nalu_of p) ≡ true
unfolding is_valid front is_empty
sei_nalu_of-is_valid p = refl

sei_nalu_of-nalu_type : (p : SeiPayload) → (nalu_type (sei_nalu_of p) == sei_nalu) ≡ true
unfolding nalu_type front
sei_nalu_of-nalu_type p = refl

module _ (av_rescale_q : ℤ → TimeBase → TimeBase → ℤ) (heaps : StdHeaps) (input_id : ℕ)
    (pkt : Packet) where
  -- The metadata that stands for the captions, numbered from `order`.
  abbrev pub caption_metadata : Extraction → ℕ → List SeiPayload → List (Metadata SeiPayload)
  caption_metadata st order [] = []
  caption_metadata st order (sei ∷ seis) =
      if sei.payload_type == user_data_registered
      then tagged av_rescale_q heaps input_id pkt st order sei
        ∷ caption_metadata st (suc order) seis
      else caption_metadata st order seis

  abbrev run : List SeiPayload → ℕ × Extraction → ℕ × Extraction
  run = push_captions av_rescale_q heaps input_id pkt

  process_plain :
      (nalu : List ℕ) (s : ℕ × Extraction)
      → (is_valid nalu && (nalu_type nalu == sei_nalu)) ≡ false
      → process_nalu av_rescale_q heaps input_id pkt nalu s ≡ (ok tt, s)
  unfolding process_nalu
  process_plain nalu s h = ground arith

  push_payloads :
      (p : SeiPayload) (s : ℕ × Extraction) (o : Outcome (List ℕ))
      → bind o (λ sodb. ok (packets sei_format (drop 1 sodb))) ≡ ok (p ∷ [], some (ok tt))
      → push_sodb av_rescale_q heaps input_id pkt o s ≡ (ok tt, run (p ∷ []) s)
  unfolding push_sodb
  push_payloads p s (ok sodb) h =
      let e : packets sei_format (drop 1 sodb) ≡ (p ∷ [], some (ok tt)) = cc in rw e
  push_payloads p s (parse_error x) h = cc
  push_payloads p s runtime_error h = cc
  push_payloads p s fault h = cc

  process_captioned :
      (p : SeiPayload) (s : ℕ × Extraction)
      → IsShort p
      → start_codes p.bytes ≡ 0
      → process_nalu av_rescale_q heaps input_id pkt (sei_nalu_of p) s ≡ (ok tt, run (p ∷ []) s)
  unfolding process_nalu
  process_captioned p s h hz =
      rw (sei_nalu_of-is_valid p, sei_nalu_of-nalu_type p)
        (push_payloads p s (copy_ebsp_to_sodb (sei_nalu_of p))
          (unfold nalu_payloads in sei_nalu_payloads p h hz))

  process_parts :
      (parts : List Part) (s : ℕ × Extraction)
      → All IsPart parts
      → process_nalus av_rescale_q heaps input_id pkt (nalus_of parts) (ok tt) s
        ≡ (ok tt, run (payloads_of parts) s)
  unfolding process_nalus push_captions
  process_parts [] s h = refl
  process_parts (plain nalu ∷ parts) s ((hn, hv), hs) =
      rw (process_plain nalu s hv) (process_parts parts s hs)
  process_parts (captioned p ∷ parts) s ((h, hz), hs) =
      rw (process_captioned p s h hz) (process_parts parts (run (p ∷ []) s) hs)

  -- A caption pushed does not change how the next ones are tagged.
  caption_metadata-after :
      (sei : SeiPayload) (st : Extraction) (k order : ℕ) (seis : List SeiPayload)
      → caption_metadata (push_caption av_rescale_q heaps input_id pkt k sei st) order seis
        ≡ caption_metadata st order seis
  unfolding push_caption
  caption_metadata-after sei st k order [] = refl
  caption_metadata-after sei st k order (x ∷ seis) = rw (
    caption_metadata-after sei st k order seis,
    caption_metadata-after sei st k (suc order) seis,
    rescale_to_clock_again av_rescale_q st.pts_rescaler pkt.pts,
    rescale_to_clock_again av_rescale_q st.dts_rescaler pkt.dts,
  )

  -- What the loops leave: the queue has the expected metadata besides what it had, and is a heap.
  abbrev pub IsPushed : List (Metadata SeiPayload) → Extraction → Extraction → Type 0
  IsPushed expected st left =
      IsHeap comparator left.queues.sei
      × SameBag left.queues.sei (expected ++ st.queues.sei)
      × (left.queues.scte ≡ st.queues.scte)
      × (left.caps.scte ≡ st.caps.scte)

  module _ (laws : IsStdHeap heaps.sei comparator) where
    push_caption-IsHeap :
        (sei : SeiPayload) (order : ℕ) (st : Extraction)
        → IsHeap comparator st.queues.sei
        → IsHeap comparator (push_caption av_rescale_q heaps input_id pkt order sei st).queues.sei
    unfolding push_caption push_sei push
    push_caption-IsHeap sei order st h = laws.push_IsHeap st.queues.sei _ h

    IsPushed-first :
        (sei : SeiPayload) (order : ℕ) (st left : Extraction)
        (expected : List (Metadata SeiPayload))
        → IsHeap comparator st.queues.sei
        → IsPushed expected (push_caption av_rescale_q heaps input_id pkt order sei st) left
        → IsPushed (tagged av_rescale_q heaps input_id pkt st order sei ∷ expected) st left
    unfolding push_caption push_sei push
    IsPushed-first sei order st left expected h (heaped, same, scte, caps) =
        let x : Metadata SeiPayload = tagged av_rescale_q heaps input_id pkt st order sei in
        let q : List (Metadata SeiPayload) = st.queues.sei in
        (
          heaped,
          λ p. omega (
            arith,
            same p,
            laws.push_SameBag q x h p,
            count-append p expected (heaps.sei.push_heap comparator (q ++ (x ∷ []))),
            count-append p expected q,
          ),
          scte,
          caps,
        )

    run-IsPushed :
        (seis : List SeiPayload) (order : ℕ) (st : Extraction)
        → IsHeap comparator st.queues.sei
        → IsPushed (caption_metadata st order seis) st (run seis (order, st)).1
    unfolding push_captions
    run-IsPushed [] order st h = (h, λ p. refl, refl, refl)
    run-IsPushed (sei ∷ seis) order st h =
        elim (Bool-cases (sei.payload_type == user_data_registered)) [
          | inl e ↦
              let next : Extraction = push_caption av_rescale_q heaps input_id pkt order sei st in
              let pushed =
                run-IsPushed seis (suc order) next (push_caption-IsHeap sei order st h) in
              rw (e, push_captions)
                (IsPushed-first sei order st (run seis (suc order, next)).1
                  (caption_metadata st (suc order) seis) h
                  (rw (caption_metadata-after sei st order (suc order) seis) at pushed))
          | inr e ↦ rw (e, push_captions) (run-IsPushed seis order st h)
        ]

    -- With standard heap functions and a queue that is a heap: for a packet that is a sequence of
    -- written NALUs, each either not a valid SEI NALU or one payload as in H264.Sei.Extract, the
    -- extractor throws nothing and returns false. The queue is a heap again, and has besides what it
    -- had exactly the packet's captions, in one input's name, at the packet's rescaled times and with
    -- orders 0, 1, 2 … in the order of the packet. The SCTE-35 queue is as it was.
    pub extract_sei-IsPushed :
        (parts : List Part) (st : Extraction)
        → All IsPart parts
        → pkt.bytes ≡ emit_nalus (nalus_of parts)
        → IsHeap comparator st.queues.sei
        → (left : Extraction) × (extract_sei av_rescale_q heaps input_id pkt st ≡ (ok false, left))
          × IsPushed (caption_metadata st 0 (payloads_of parts)) st left
    unfolding extract_sei
    extract_sei-IsPushed parts st h bytes heaped =
        let read : packets nalu_format pkt.bytes ≡ (nalus_of parts, some (ok tt)) =
          ap (packets nalu_format) bytes
          ∙ packets-emit_nalus (nalus_of parts) (nalus_of-IsNalu parts h) in
        (
          (run (payloads_of parts) (0, st)).1,
          rw (read, process_parts parts (0, st) h),
          run-IsPushed (payloads_of parts) 0 st heaped,
        )
