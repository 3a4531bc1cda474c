-- ===== src/H264/Sei/Several.antt =====
-- Several payloads in one NALU: emit_sei_payload ends each of them with a stop bit of its own, and
-- the byte 0x80 is what the parser takes for the type of the next one.
use metamix.Base.{
  ℕ, zero, suc, ◌+◌, ◌-◌, ◌<◌, List, [], ◌∷◌, ◌++◌, ◌≡◌, refl, arith, ap, ◌∙◌, append-nil,
  append_assoc, true, false, ltb, some, Option, length, length-append, drop, take, drop-add,
  take-append, drop-append, Bool-cases, inl, inr,
}
use metamix.Binary.Outcome.{Outcome, ok, throw, malformed_sei}
use metamix.Binary.Parser.{Parser, create, has_next, shift, packed}
use metamix.Binary.Parser.Drain.{Drained, drain, packets, cons_packet, drain_packet, drain_refused}
use metamix.H264.Rbsp.{unescape, copy_ebsp_to_sodb}
use metamix.H264.Rbsp.Plain.{
  escapes_behind, escapes, unescape_loop-none, escapes_behind-append, escapes_behind-header,
  copy_sodb_to_ebsp-none,
}
use metamix.H264.Rbsp.RoundTrip.{copy_ebsp_to_sodb-marker}
use metamix.H264.Sei.{
  SeiPayload, SeiBounds, sei_format, sei_parser_next, sei_bounds, sei_parser_pack, emit_sei_payload,
  emit_sei_payloads,
}
use metamix.H264.Sei.Emit.{IsShort}
use metamix.H264.Sei.Variadic.{emit_small, read_small}
use metamix.H264.Sei.Extract.{nalu_payloads}

-- The bytes behind the two numbers of a payload p when another, q, follows.
abbrev both : SeiPayload → SeiPayload → List ℕ
both p q = p.bytes ++ (0x80 ∷ q.payload_type ∷ length q.bytes ∷ q.bytes)

unescape-both :
    (p q : SeiPayload)
    → IsShort p
    → IsShort q
    → escapes p.bytes ≡ 0
    → escapes q.bytes ≡ 0
    → unescape (6 ∷ p.payload_type ∷ length p.bytes ∷ both p q)
      ≡ 6 ∷ p.payload_type ∷ length p.bytes ∷ both p q
unfolding unescape escapes_behind
unescape-both p q hp hq ep eq =
    ap (λ l. 6 ∷ p.payload_type ∷ l)
      (unescape_loop-none 6 p.payload_type (length p.bytes ∷ both p q) (
        ground (
          arith,
          escapes_behind-append p.payload_type (length p.bytes) p.bytes q.payload_type
              (length q.bytes) q.bytes,
          escapes_behind-header p.payload_type (length p.bytes) p.bytes hp.1,
          escapes_behind-header q.payload_type (length q.bytes) q.bytes hq.1,
        )))

emit_sei_payload-none :
    (p : SeiPayload)
    → IsShort p
    → escapes p.bytes ≡ 0
    → emit_sei_payload p ≡ p.payload_type ∷ length p.bytes ∷ (p.bytes ++ (0x80 ∷ []))
emit_sei_payload-none p (ht, h0, hs) e =
    unfold emit_sei_payload in
    rw (
      emit_small p.payload_type ht,
      emit_small (length p.bytes) hs,
      copy_sodb_to_ebsp-none p.bytes h0 e,
    )

emit_two :
    (p q : SeiPayload)
    → IsShort p
    → IsShort q
    → escapes p.bytes ≡ 0
    → escapes q.bytes ≡ 0
    → 6 ∷ emit_sei_payloads (p ∷ q ∷ [])
      ≡ (6 ∷ p.payload_type ∷ length p.bytes ∷ both p q) ++ (0x80 ∷ [])
unfolding emit_sei_payloads
emit_two p q hp hq ep eq = rw (
  emit_sei_payload-none p hp ep,
  emit_sei_payload-none q hq eq,
  append-nil (q.bytes ++ (0x80 ∷ [])),
  append_assoc p.bytes (0x80 ∷ []) (q.payload_type ∷ length q.bytes ∷ (q.bytes ++ (0x80 ∷ []))),
  append_assoc p.bytes (0x80 ∷ q.payload_type ∷ length q.bytes ∷ q.bytes) (0x80 ∷ []),
)

sodb_of_two :
    (p q : SeiPayload)
    → IsShort p
    → IsShort q
    → escapes p.bytes ≡ 0
    → escapes q.bytes ≡ 0
    → copy_ebsp_to_sodb (6 ∷ emit_sei_payloads (p ∷ q ∷ []))
      ≡ ok (6 ∷ p.payload_type ∷ length p.bytes ∷ both p q)
sodb_of_two p q hp hq ep eq = rw (emit_two p q hp hq ep eq) (
    copy_ebsp_to_sodb-marker 6 (p.payload_type ∷ length p.bytes ∷ both p q)
    ∙ ap ok (unescape-both p q hp hq ep eq))

-- No payload follows, or one of type 0x80.
abbrev pub IsMisread : List SeiPayload → Type 0
IsMisread [] = Unit
IsMisread (r ∷ rs) = r.payload_type ≡ 0x80

sei_bounds_fits :
    (p : SeiPayload) (rest : List ℕ)
    → sei_bounds
        (suc (suc (length (p.bytes ++ rest))))
        p.payload_type
        (length p.bytes)
        (p.bytes ++ rest)
      ≡ ok (some (record { offset = 2; count = length p.bytes; payload_type = p.payload_type }))
unfolding sei_bounds
sei_bounds_fits p rest = ground (arith, length-append p.bytes rest)

header_next :
    (n t : ℕ) (s : List ℕ)
    → n < 255
    → t < 255
    → sei_parser_next (n ∷ t ∷ s) ≡ sei_bounds (suc (suc (length s))) n t s
unfolding sei_parser_next
header_next n t s hn ht = rw (read_small n (t ∷ s) hn, read_small t s ht)

bounds_refused :
    (total t : ℕ) (s : List ℕ)
    → ltb (length s) t ≡ true
    → sei_bounds total 0x80 t s ≡ throw malformed_sei
unfolding sei_bounds
bounds_refused total t s e = rw e

bounds_taken :
    (total t : ℕ) (s : List ℕ)
    → ltb (length s) t ≡ false
    → sei_bounds total 0x80 t s
      ≡ ok (some (record { offset = total - length s; count = t; payload_type = 0x80 }))
unfolding sei_bounds
bounds_taken total t s e = rw e

none-IsMisread : (rs : List SeiPayload) → rs ≡ [] → IsMisread rs
none-IsMisread [] e = tt
none-IsMisread (r ∷ rs) e = cc

first-IsMisread :
    (rs : List SeiPayload) (r : SeiPayload) (more : Drained SeiPayload)
    → rs ≡ (cons_packet r more).0
    → r.payload_type ≡ 0x80
    → IsMisread rs
first-IsMisread rs r more e h = rw e h

misread :
    (fuel consumed t : ℕ) (s : List ℕ)
    → t < 255
    → IsMisread (drain sei_format fuel (record { consumed = consumed; left = 0x80 ∷ t ∷ s })).0
misread zero consumed t s h = unfold drain has_next in tt
misread (suc fuel) consumed t s h =
    let p : Parser = record { consumed = consumed; left = 0x80 ∷ t ∷ s } in
    let b : SeiBounds = record {
      offset = suc (suc (length s)) - length s;
      count = t;
      payload_type = 0x80;
    } in
    elim (Bool-cases (ltb (length s) t)) [
      | inl e ↦ none-IsMisread (drain sei_format (suc fuel) p).0 (
          drain_refused sei_format fuel p _ (unfold has_next in refl)
            (header_next 0x80 t s (omega arith) h ∙ bounds_refused (suc (suc (length s))) t s e))
      | inr e ↦
          first-IsMisread (drain sei_format (suc fuel) p).0 _
            (drain sei_format fuel (shift sei_format p b))
            (ap (λ r. r.0)
              (drain_packet sei_format fuel p b
                (record { payload_type = 0x80; bytes = take t (drop b.offset p.left) })
                (unfold has_next in refl)
                (header_next 0x80 t s (omega arith) h ∙ bounds_taken (suc (suc (length s))) t s e)
                (unfold packed sei_parser_pack in refl)))
            refl
    ]

-- The first round reads p.
packets-both :
    (p q : SeiPayload)
    → IsShort p
    → packets sei_format (p.payload_type ∷ length p.bytes ∷ both p q)
      ≡ cons_packet p (
          drain sei_format (suc (length (both p q))) (record {
            consumed = 0 + (2 + length p.bytes);
            left = 0x80 ∷ q.payload_type ∷ length q.bytes ∷ q.bytes;
          }))
unfolding packets create shift packed sei_parser_pack
packets-both p q (ht, h0, hs) =
    let rest : List ℕ = 0x80 ∷ q.payload_type ∷ length q.bytes ∷ q.bytes in
    let start : Parser = create (p.payload_type ∷ length p.bytes ∷ both p q) in
    let b : SeiBounds = record {
      offset = 2;
      count = length p.bytes;
      payload_type = p.payload_type;
    } in
    drain_packet sei_format (suc (length (both p q))) start b p (unfold has_next in refl)
      (header_next p.payload_type (length p.bytes) (both p q) ht hs ∙ sei_bounds_fits p rest)
      (rw (take-append p.bytes rest))
    ∙ rw (
      drop-add 2 (length p.bytes) (p.payload_type ∷ length p.bytes ∷ both p q),
      drop-append p.bytes rest,
    )

-- A NALU written for two payloads p and q, each of a type below 255, of 1 to 254 bytes and with no
-- byte of at most 3 behind two zeros, is read back as p and then as nothing more or a payload of
-- type 0x80, whatever the type of q is.
pub two_payloads-IsMisread :
    (p q : SeiPayload)
    → IsShort p
    → IsShort q
    → escapes p.bytes ≡ 0
    → escapes q.bytes ≡ 0
    → (more : List SeiPayload) × (ended : Option (Outcome (Unit {0}))) × (nalu_payloads
          (6 ∷ emit_sei_payloads (p ∷ q ∷ []))
        ≡ ok (p ∷ more, ended))
      × IsMisread more
unfolding nalu_payloads
two_payloads-IsMisread p q hp hq ep eq =
    let behind : Parser = record {
      consumed = 0 + (2 + length p.bytes);
      left = 0x80 ∷ q.payload_type ∷ length q.bytes ∷ q.bytes;
    } in
    let fuel : ℕ = suc (length (both p q)) in
    (
      (drain sei_format fuel behind).0,
      (drain sei_format fuel behind).1,
      rw (sodb_of_two p q hp hq ep eq) (ap ok (packets-both p q hp)),
      misread fuel behind.consumed q.payload_type (length q.bytes ∷ q.bytes) hq.0,
    )
