-- ===== src/H264/Sei/Extract.antt =====
-- A payload written by the injector is read back by the extractor.
use metamix.Base.{◌%◌, ◌^◌}
use metamix.Base.{
  ℕ, suc, ◌+◌, ◌≤◌, ◌<◌, List, [], ◌∷◌, ◌++◌, ◌≡◌, ◌≢◌, refl, arith, ap, ◌∙◌, append-nil,
}
use metamix.Base.{length, drop, take, drop-add, some}
use metamix.Binary.Outcome.{Outcome, ok, bind}
use metamix.Binary.Parser.{Parser, create, has_next, shift, packed}
use metamix.Binary.Parser.Drain.{Drained, packets, cons_packet, drain_packet, drain_end}
use metamix.H264.Rbsp.{escape, unescape, unescape_loop, copy_sodb_to_ebsp, copy_ebsp_to_sodb}
use metamix.H264.Rbsp.RoundTrip.{copy_ebsp_to_sodb-marker, unescape-escape}
use metamix.H264.Rbsp.Size.{start_codes, zero_runs-le-start_codes}
use metamix.H264.Nalu.{nalu_format, emit_avcc_nalu, emit_nalu_length, max_length}
use metamix.H264.Nalu.Framing.{packets-emit_nalus, emit_nalus}
use metamix.H264.Sei.{
  SeiPayload, SeiBounds, sei_format, sei_parser_next, sei_bounds, sei_parser_pack,
}
use metamix.H264.Sei.{
  emit_sei_payload, sei_payload_size_hint, emit_sei_payloads, emit_sei_payloads_to_avcc_nalu,
  size_hint,
}
use metamix.H264.Sei.Emit.{IsShort, length-emit_sei_payload, emit_sei_payload-le}
use metamix.H264.Sei.Variadic.{emit_small, read_small}

-- The SEI branch of SeiExtractor::process and SeiInjector::strip_cc (src/proc): the emulation
-- prevention is removed from the whole NALU, and the payloads are read behind its type byte.
unfoldable pub nalu_payloads : List ℕ → Outcome (Drained SeiPayload)
nalu_payloads nalu = bind (copy_ebsp_to_sodb nalu) λ sodb. ok (packets sei_format (drop 1 sodb))

-- Behind a header byte that is not zero the payload is unescaped as if it stood alone.
behind_header : (t k : ℕ) (xs : List ℕ) → k ≢ 0 → unescape_loop t k xs ≡ unescape xs
unfolding unescape unescape_loop
behind_header t k [] h = refl
behind_header t k (x ∷ []) h = ground arith
behind_header t k (x ∷ y ∷ xs) h = ground arith

sodb_of_nalu :
    (t k : ℕ) (xs : List ℕ)
    → 0 < k
    → start_codes xs ≡ 0
    → 0 < length xs
    → copy_ebsp_to_sodb (6 ∷ t ∷ k ∷ copy_sodb_to_ebsp xs) ≡ ok (6 ∷ t ∷ k ∷ xs)
unfolding copy_sodb_to_ebsp unescape unescape_loop
sodb_of_nalu t k [] hk hz hl = absurd (omega arith)
sodb_of_nalu t k (x ∷ xs) hk hz hl =
    copy_ebsp_to_sodb-marker 6 (t ∷ k ∷ escape (x ∷ xs))
    ∙ ap (λ l. ok (6 ∷ t ∷ k ∷ l))
        (behind_header t k (escape (x ∷ xs)) (omega arith)
          ∙ unescape-escape (x ∷ xs) (omega (arith, zero_runs-le-start_codes (x ∷ xs))))

-- The bounds of a payload behind two header bytes.
abbrev short_bounds : SeiPayload → SeiBounds
short_bounds p = record { offset = 2; count = length p.bytes; payload_type = p.payload_type }

abbrev sodb_of : SeiPayload → List ℕ
sodb_of p = p.payload_type ∷ length p.bytes ∷ p.bytes

sei_bounds_short :
    (p : SeiPayload)
    → sei_bounds (length (sodb_of p)) p.payload_type (length p.bytes) p.bytes
      ≡ ok (some (short_bounds p))
unfolding sei_bounds
sei_bounds_short p = ground arith

sei_parser_next_short :
    (p : SeiPayload) → IsShort p → sei_parser_next (sodb_of p) ≡ ok (some (short_bounds p))
unfolding sei_parser_next
sei_parser_next_short p (ht, hp, hs) =
    rw
      (
        read_small p.payload_type (length p.bytes ∷ p.bytes) ht,
        read_small (length p.bytes) p.bytes hs,
      )
      (sei_bounds_short p)

take_all : (xs : List ℕ) → take (length xs) xs ≡ xs
take_all [] = refl
take_all (x ∷ xs) = ap (λ t. x ∷ t) (take_all xs)

drop_all : (xs : List ℕ) → drop (length xs) xs ≡ []
drop_all [] = refl
drop_all (x ∷ xs) = drop_all xs

packets-sodb_of :
    (p : SeiPayload) → IsShort p → packets sei_format (sodb_of p) ≡ (p ∷ [], some (ok tt))
unfolding packets create shift packed sei_parser_pack
packets-sodb_of p h =
    let start : Parser = record { consumed = 0; left = sodb_of p } in
    drain_packet sei_format (suc (length p.bytes)) start (short_bounds p) p
      (unfold has_next in refl) (sei_parser_next_short p h) (rw (take_all p.bytes))
    ∙ ap (cons_packet p) (
        drain_end sei_format (suc (length p.bytes)) _ (
          rw (drop-add 2 (length p.bytes) (sodb_of p), drop_all p.bytes) (unfold has_next in refl)))

-- What emit_sei_payloads_to_avcc_nalu writes for one payload, without its length field.
abbrev pub sei_nalu_of : SeiPayload → List ℕ
sei_nalu_of p = 6 ∷ emit_sei_payload p

pub framed_list :
    (n : ℕ) (bytes : List ℕ)
    → n ≡ 1 + length bytes
    → n ≤ max_length
    → emit_nalu_length n ++ (6 ∷ bytes) ≡ emit_avcc_nalu (6 ∷ bytes)
unfolding emit_avcc_nalu
framed_list n bytes h k = ap (λ m. emit_nalu_length m ++ (6 ∷ bytes)) (omega arith)

framed :
    (p : SeiPayload)
    → IsShort p
    → start_codes p.bytes ≡ 0
    → emit_sei_payloads_to_avcc_nalu (p ∷ []) ≡ emit_nalus (sei_nalu_of p ∷ [])
unfolding emit_sei_payloads_to_avcc_nalu emit_sei_payloads size_hint
framed p h hz =
    let hint : ℕ = 1 + sei_payload_size_hint p in
    let small : hint % 2 ^ 32 ≡ hint = omega (arith, emit_sei_payload-le p h) in
    rw
      (small, append-nil (emit_sei_payload p), append-nil (emit_avcc_nalu (6 ∷ emit_sei_payload p)))
      (framed_list (1 + sei_payload_size_hint p) (emit_sei_payload p)
        (omega (arith, length-emit_sei_payload p h)) (omega (arith, emit_sei_payload-le p h)))

pub sei_nalu_payloads :
    (p : SeiPayload)
    → IsShort p
    → start_codes p.bytes ≡ 0
    → nalu_payloads (sei_nalu_of p) ≡ ok (p ∷ [], some (ok tt))
unfolding nalu_payloads
sei_nalu_payloads p h hz =
    let written : emit_sei_payload p ≡ p.payload_type ∷ length p.bytes ∷ copy_sodb_to_ebsp p.bytes =
      unfold emit_sei_payload in
      rw (emit_small p.payload_type h.0, emit_small (length p.bytes) h.2) in
    rw (written, sodb_of_nalu p.payload_type (length p.bytes) p.bytes h.1 hz h.1)
      (ap ok (packets-sodb_of p h))

-- For one payload whose type is below 255, that has 1 to 254 bytes and no start code: the loop
-- over NALUs finds exactly the NALU that was written, and the SEI branch of the extractor finds in
-- it exactly the payload.
pub extract-emit :
    (p : SeiPayload)
    → IsShort p
    → start_codes p.bytes ≡ 0
    → (packets nalu_format (emit_sei_payloads_to_avcc_nalu (p ∷ []))
        ≡ (sei_nalu_of p ∷ [], some (ok tt)))
      × (nalu_payloads (sei_nalu_of p) ≡ ok (p ∷ [], some (ok tt)))
extract-emit p h hz = (
  rw (framed p h hz) (
      packets-emit_nalus (sei_nalu_of p ∷ [])
        ((omega arith, omega (arith, length-emit_sei_payload p h, emit_sei_payload-le p h)), tt)),
  sei_nalu_payloads p h hz,
)
