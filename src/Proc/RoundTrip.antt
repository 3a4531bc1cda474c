-- ===== src/Proc/RoundTrip.antt =====
-- From the injector to an extractor: the caption of a packet is exchanged.
use metamix.Base.{
  ℕ, ◌+◌, length, ◌≤◌, List, [], ◌∷◌, ◌++◌, ◌≡◌, Option, some, arith, All, append-nil,
}
use metamix.Binary.Outcome.{ok}
use metamix.Binary.Parser.Drain.{packets}
use metamix.H264.Rbsp.Size.{start_codes}
use metamix.H264.Nalu.{nalu_format, max_length}
use metamix.H264.Nalu.Framing.{emit_nalus}
use metamix.H264.Sei.{SeiPayload, emit_sei_payload, emit_sei_payloads}
use metamix.H264.Sei.Emit.{IsShort, emit_sei_payloads-le}
use metamix.H264.Sei.Extract.{sei_nalu_of, nalu_payloads, sei_nalu_payloads}
use metamix.MetadataQueue.{Metadata}
use metamix.Proc.Injector.{non_cc_seis, remux, vals}
use metamix.Proc.Injector.Remux.{IsLeading, IsKept, IsMiddle, middle, payloads, remux-lem}

small :
    (p : SeiPayload)
    → IsShort p
    → start_codes p.bytes ≡ 0
    → 1 + length (emit_sei_payloads (p ∷ [])) ≤ max_length
small p h hz = omega (arith, emit_sei_payloads-le (p ∷ []) (h, tt))

one_nalu : (p : SeiPayload) → 6 ∷ emit_sei_payloads (p ∷ []) ≡ sei_nalu_of p
unfolding emit_sei_payloads
one_nalu p = rw (append-nil (emit_sei_payload p))

-- For a packet as in Proc.Injector.Remux whose SEI NALU, if it has one, holds a caption, and one item
-- of metadata found, with a short payload without start codes: the injector writes a packet whose
-- NALUs are the packet's own, with the SEI NALU exchanged for one of the item found, and an extractor
-- reads from that NALU exactly the item's payload.
pub remux-exchanged :
    (lead : List (List ℕ)) (sei : Option SeiPayload) (rest : List (List ℕ))
    (meta : Metadata SeiPayload)
    → All IsLeading lead
    → IsMiddle sei rest
    → All IsKept rest
    → non_cc_seis (payloads sei) ≡ []
    → IsShort meta.val
    → start_codes meta.val.bytes ≡ 0
    → (buf : List ℕ) × (remux (meta ∷ []) (emit_nalus (lead ++ (middle sei ++ rest))) ≡ ok buf)
      × (packets nalu_format buf ≡ (lead ++ (sei_nalu_of meta.val ∷ rest), some (ok tt)))
      × (nalu_payloads (sei_nalu_of meta.val) ≡ ok (meta.val ∷ [], some (ok tt)))
remux-exchanged lead sei rest meta hl hm hr stripped h hz =
    let seis : non_cc_seis (payloads sei) ++ vals (meta ∷ []) ≡ meta.val ∷ [] = rw stripped in
    let (buf, e, read) =
      remux-lem lead sei rest (meta ∷ []) hl hm hr (rw seis (h, tt)) (rw seis (omega arith))
        (rw seis (small meta.val h hz)) in
    (buf, e, rw (seis, one_nalu meta.val) at read, sei_nalu_payloads meta.val h hz)
