-- ===== src/Proc/Injector/Remux.antt =====
-- What the injector writes for a packet whose NALUs were written by the emitter.
use metamix.Base.{◌+◌, length}
use metamix.Base.{
  ℕ, List, [], ◌∷◌, ◌++◌, ◌≡◌, refl, ap, ◌∙◌, sym, true, false, Option, none, some, arith, All,
  ◌==◌, drop, ◌≤◌, append_assoc,
}
use metamix.Binary.Outcome.{Outcome, ok, parse_error, runtime_error, fault, bind}
use metamix.Binary.Parser.Drain.{packets}
use metamix.H264.Rbsp.{copy_ebsp_to_sodb}
use metamix.H264.Rbsp.Size.{start_codes}
use metamix.H264.Nalu.{
  is_valid, nalu_type, nalu_format, sei_nalu, max_length, front, is_empty, emit_avcc_nalu,
}
use metamix.H264.Nalu.Framing.{IsNalu, emit_nalus, packets-emit_nalus}
use metamix.H264.Sei.{
  SeiPayload, sei_format, emit_sei_payloads, size_hint, emit_sei_payloads_to_avcc_nalu,
}
use metamix.H264.Sei.Emit.{
  IsShort, length-emit_sei_payload, emit_sei_payload-le, all_start_codes, size_hint-eq,
}
use metamix.H264.Sei.Extract.{sei_nalu_of, nalu_payloads, sei_nalu_payloads, framed_list}
use metamix.MetadataQueue.{Metadata}
use metamix.Proc.Packet.{ending}
use metamix.Proc.Injector.{
  non_cc_seis, strip_cc, valid_nalus, is_leading, split_leading, take_sei, emit_avcc_nalus, vals,
  remux,
}

-- A valid NALU that the framing can hold.
abbrev pub IsKept : List ℕ → Type 0
IsKept nalu = IsNalu nalu × (is_valid nalu ≡ true)

abbrev pub IsLeading : List ℕ → Type 0
IsLeading nalu = IsKept nalu × (is_leading nalu ≡ true)

-- The payload of a SEI NALU behind the leading ones, if there is one.
abbrev pub middle : Option SeiPayload → List (List ℕ)
middle none = []
middle (some p) = sei_nalu_of p ∷ []

abbrev pub payloads : Option SeiPayload → List SeiPayload
payloads none = []
payloads (some p) = p ∷ []

-- The payload is one that the emitter writes faithfully; without one the rest does not begin with a
-- leading or a SEI NALU.
abbrev pub IsMiddle : Option SeiPayload → List (List ℕ) → Type 0
IsMiddle (some p) rest = IsShort p × (start_codes p.bytes ≡ 0)
IsMiddle none [] = Unit
IsMiddle none (nalu ∷ rest) = (is_leading nalu ≡ false) × ((nalu_type nalu == sei_nalu) ≡ false)

emit_avcc_nalus-eq : (ns : List (List ℕ)) → emit_avcc_nalus ns ≡ emit_nalus ns
unfolding emit_avcc_nalus
emit_avcc_nalus-eq [] = refl
emit_avcc_nalus-eq (n ∷ ns) = ap (λ t. emit_avcc_nalu n ++ t) (emit_avcc_nalus-eq ns)

emit_nalus-append : (ns ms : List (List ℕ)) → emit_nalus (ns ++ ms) ≡ emit_nalus ns ++ emit_nalus ms
emit_nalus-append [] ms = refl
emit_nalus-append (n ∷ ns) ms =
    ap (λ t. emit_avcc_nalu n ++ t) (emit_nalus-append ns ms)
    ∙ sym (append_assoc (emit_avcc_nalu n) (emit_nalus ns) (emit_nalus ms))

All-append : {A : Type 0} (P : A → Type 0) (xs ys : List A) → All P xs → All P ys → All P (xs ++ ys)
All-append P [] ys h k = k
All-append P (x ∷ xs) ys (hx, h) k = (hx, All-append P xs ys h k)

IsNalu-of : (ns : List (List ℕ)) → All IsKept ns → All IsNalu ns
IsNalu-of [] h = tt
IsNalu-of (n ∷ ns) ((h, v), hs) = (h, IsNalu-of ns hs)

IsKept-of : (ns : List (List ℕ)) → All IsLeading ns → All IsKept ns
IsKept-of [] h = tt
IsKept-of (n ∷ ns) ((h, v), hs) = (h, IsKept-of ns hs)

valid_nalus-all : (ns : List (List ℕ)) → All IsKept ns → valid_nalus ns ≡ ns
unfolding valid_nalus
valid_nalus-all [] h = refl
valid_nalus-all (n ∷ ns) ((h, v), hs) = rw (v, valid_nalus-all ns hs)

sei_nalu_of-IsKept : (p : SeiPayload) → IsShort p → start_codes p.bytes ≡ 0 → IsKept (sei_nalu_of p)
unfolding is_valid front is_empty
sei_nalu_of-IsKept p h hz =
    ((omega arith, omega (arith, length-emit_sei_payload p h, emit_sei_payload-le p h)), refl)

sei_nalu_of-is_leading : (p : SeiPayload) → is_leading (sei_nalu_of p) ≡ false
unfolding is_leading nalu_type front
sei_nalu_of-is_leading p = refl

sei_nalu_of-nalu_type : (p : SeiPayload) → (nalu_type (sei_nalu_of p) == sei_nalu) ≡ true
unfolding nalu_type front
sei_nalu_of-nalu_type p = refl

split_leading-append :
    (lead ns : List (List ℕ))
    → All IsLeading lead
    → split_leading ns ≡ ([], ns)
    → split_leading (lead ++ ns) ≡ (lead, ns)
unfolding split_leading
split_leading-append [] ns h e = e
split_leading-append (n ∷ lead) ns ((k, l), h) e = rw (l, split_leading-append lead ns h e)

-- The leading loop stops where the packet's other NALUs begin.
split_leading-middle :
    (sei : Option SeiPayload) (rest : List (List ℕ))
    → IsMiddle sei rest
    → split_leading (middle sei ++ rest) ≡ ([], middle sei ++ rest)
unfolding split_leading
split_leading-middle (some p) rest h = rw (sei_nalu_of-is_leading p)
split_leading-middle none [] h = refl
split_leading-middle none (n ∷ rest) (l, s) = rw l

strip_payloads :
    (kept : List SeiPayload) (o : Outcome (List ℕ))
    → bind o (λ sodb. ok (packets sei_format (drop 1 sodb))) ≡ ok (kept, some (ok tt))
    → bind o (λ sodb.
      let (seis, ended) = packets sei_format (drop 1 sodb) in
      bind (ending ended) λ _. ok (non_cc_seis seis))
      ≡ ok (non_cc_seis kept)
strip_payloads kept (ok sodb) h =
    let e : packets sei_format (drop 1 sodb) ≡ (kept, some (ok tt)) = cc in rw e
strip_payloads kept (parse_error x) h = cc
strip_payloads kept runtime_error h = cc
strip_payloads kept fault h = cc

take_sei-middle :
    (sei : Option SeiPayload) (rest : List (List ℕ))
    → IsMiddle sei rest
    → take_sei (middle sei ++ rest) ≡ ok (non_cc_seis (payloads sei), rest)
unfolding take_sei strip_cc non_cc_seis
take_sei-middle (some p) rest (h, hz) = rw (
  sei_nalu_of-nalu_type p,
  strip_payloads (p ∷ []) (copy_ebsp_to_sodb (sei_nalu_of p))
      (unfold nalu_payloads in sei_nalu_payloads p h hz),
)
take_sei-middle none [] h = refl
take_sei-middle none (n ∷ rest) (l, s) = rw s

middle-IsKept :
    (sei : Option SeiPayload) (rest : List (List ℕ)) → IsMiddle sei rest → All IsKept (middle sei)
middle-IsKept none rest h = tt
middle-IsKept (some p) rest (h, hz) = (sei_nalu_of-IsKept p h hz, tt)

-- The bytes that are written for the three parts of a packet.
abbrev pub written : List (List ℕ) → List SeiPayload → List (List ℕ) → List ℕ
written lead seis rest =
    emit_avcc_nalus lead ++ (emit_sei_payloads_to_avcc_nalu seis ++ emit_avcc_nalus rest)

remux-written :
    (lead : List (List ℕ)) (sei : Option SeiPayload) (rest : List (List ℕ))
    (found : List (Metadata SeiPayload))
    → All IsLeading lead
    → IsMiddle sei rest
    → All IsKept rest
    → remux found (emit_nalus (lead ++ (middle sei ++ rest)))
      ≡ ok (written lead (non_cc_seis (payloads sei) ++ vals found) rest)
unfolding remux
remux-written lead sei rest found hl hm hr =
    let kept : All IsKept (lead ++ (middle sei ++ rest)) =
      All-append IsKept lead (middle sei ++ rest) (IsKept-of lead hl)
        (All-append IsKept (middle sei) rest (middle-IsKept sei rest hm) hr) in
    rw (
      packets-emit_nalus (lead ++ (middle sei ++ rest)) (IsNalu-of _ kept),
      valid_nalus-all (lead ++ (middle sei ++ rest)) kept,
      split_leading-append lead (middle sei ++ rest) hl (split_leading-middle sei rest hm),
      take_sei-middle sei rest hm,
    )

emit_sei-eq :
    (seis : List SeiPayload)
    → All IsShort seis
    → all_start_codes seis ≡ 0
    → 1 + length (emit_sei_payloads seis) ≤ max_length
    → (emit_sei_payloads_to_avcc_nalu seis ≡ emit_avcc_nalu (6 ∷ emit_sei_payloads seis))
      × IsNalu (6 ∷ emit_sei_payloads seis)
unfolding emit_sei_payloads_to_avcc_nalu
emit_sei-eq seis h hz le =
    let total = size_hint-eq 1 seis h (omega arith) in
    (
      framed_list (size_hint 1 seis) (emit_sei_payloads seis) (omega arith) (omega arith),
      (omega arith, omega arith),
    )

written-eq :
    (lead : List (List ℕ)) (seis : List SeiPayload) (rest : List (List ℕ))
    → emit_sei_payloads_to_avcc_nalu seis ≡ emit_avcc_nalu (6 ∷ emit_sei_payloads seis)
    → written lead seis rest ≡ emit_nalus (lead ++ ((6 ∷ emit_sei_payloads seis) ∷ rest))
written-eq lead seis rest e = rw (
  e,
  emit_avcc_nalus-eq lead,
  emit_avcc_nalus-eq rest,
  emit_nalus-append lead ((6 ∷ emit_sei_payloads seis) ∷ rest),
)

-- For a packet of valid written NALUs: first leading ones (delimiters and parameter sets), then a
-- NALU of one SEI payload or none, then any others. If the payloads to write, which are the source's
-- payload unless it is a caption and then the metadata found, have types below 255, 1 to 254 bytes
-- and no start code, and fit the largest NALU: the injector writes a packet, and an extractor reads
-- from it the leading NALUs, one SEI NALU of these payloads, and all other NALUs as they were.
pub remux-lem :
    (lead : List (List ℕ)) (sei : Option SeiPayload) (rest : List (List ℕ))
    (found : List (Metadata SeiPayload))
    → All IsLeading lead
    → IsMiddle sei rest
    → All IsKept rest
    → All IsShort (non_cc_seis (payloads sei) ++ vals found)
    → all_start_codes (non_cc_seis (payloads sei) ++ vals found) ≡ 0
    → 1 + length (emit_sei_payloads (non_cc_seis (payloads sei) ++ vals found)) ≤ max_length
    → (buf : List ℕ) × (remux found (emit_nalus (lead ++ (middle sei ++ rest))) ≡ ok buf)
      × (packets nalu_format buf ≡ (
        lead ++ ((6 ∷ emit_sei_payloads (non_cc_seis (payloads sei) ++ vals found)) ∷ rest),
        some (ok tt),
      ))
remux-lem lead sei rest found hl hm hr hs hz le =
    let seis : List SeiPayload = non_cc_seis (payloads sei) ++ vals found in
    let (framed, nalu) = emit_sei-eq seis hs hz le in
    (
      written lead seis rest,
      remux-written lead sei rest found hl hm hr,
      rw (written-eq lead seis rest framed) (
          packets-emit_nalus (lead ++ ((6 ∷ emit_sei_payloads seis) ∷ rest)) (
            All-append IsNalu lead _ (IsNalu-of lead (IsKept-of lead hl))
              (nalu, IsNalu-of rest hr))),
    )
