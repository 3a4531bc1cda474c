-- ===== src/H264/Sei/Emit.antt =====
-- The NALU length that emit_sei_payloads_to_avcc_nalu announces, against the bytes that follow it.
use metamix.Base.{
  ℕ, ◌+◌, ◌*◌, ◌%◌, ◌^◌, ◌≤◌, ◌<◌, List, [], ◌∷◌, ◌≡◌, arith, length, length-append, All,
}
use metamix.H264.Rbsp.Size.{start_codes, length-copy_sodb_to_ebsp, count-le-length}
use metamix.H264.Nalu.{emit_nalu_length}
use metamix.Binary.Outcome.{ok}
use metamix.Binary.Read.{read_32}
use metamix.Binary.RoundTrip.{read_32-write_32}
use metamix.H264.Sei.{SeiPayload}
use metamix.H264.Sei.{
  sei_payload_size_hint, emit_sei_payload, size_hint, emit_sei_payloads,
  emit_sei_payloads_to_avcc_nalu,
}
use metamix.H264.Sei.Variadic.{emit_small}

-- A payload whose type and size each fit one header byte.
abbrev pub IsShort : SeiPayload → Type 0
IsShort p = (p.payload_type < 255) × (0 < length p.bytes) × (length p.bytes < 255)

pub length-emit_sei_payload :
    (p : SeiPayload)
    → IsShort p
    → length (emit_sei_payload p) ≡ sei_payload_size_hint p + start_codes p.bytes
unfolding emit_sei_payload sei_payload_size_hint
length-emit_sei_payload p (ht, hp, hs) =
    rw (emit_small p.payload_type ht, emit_small (length p.bytes) hs)
      (omega (arith, length-copy_sodb_to_ebsp p.bytes hp, count-le-length p.bytes))

-- The start codes of all payloads together.
abbrev pub all_start_codes : List SeiPayload → ℕ
all_start_codes [] = 0
all_start_codes (p ∷ ps) = start_codes p.bytes + all_start_codes ps

pub size_hint-eq :
    (acc : ℕ) (ps : List SeiPayload)
    → All IsShort ps
    → acc + length (emit_sei_payloads ps) < 2 ^ 32
    → size_hint acc ps + all_start_codes ps ≡ acc + length (emit_sei_payloads ps)
unfolding size_hint emit_sei_payloads
size_hint-eq acc [] h lt = omega arith
size_hint-eq acc (p ∷ ps) (hp, hps) lt =
    let one = length-emit_sei_payload p hp in
    let both = length-append (emit_sei_payload p) (emit_sei_payloads ps) in
    let hint : ℕ = acc + sei_payload_size_hint p in
    let small : hint % 2 ^ 32 ≡ hint = omega arith in
    rw small (omega (arith, size_hint-eq hint ps hps (omega arith), one, both))

-- For payloads of types below 255, each of 1 to 254 bytes and together below four gigabytes: the four
-- bytes in front of the NALU, read as its length, fall short of the bytes written behind them by the
-- number of start codes in the payloads, so that they are right exactly if there is none.
pub length-emit_sei_payloads_to_avcc_nalu :
    (ps : List SeiPayload)
    → All IsShort ps
    → 1 + length (emit_sei_payloads ps) < 2 ^ 32
    → (announced : ℕ) × (following : List ℕ) × (read_32 (emit_sei_payloads_to_avcc_nalu ps)
        ≡ ok (announced, following))
      × (length following ≡ announced + all_start_codes ps)
unfolding emit_sei_payloads_to_avcc_nalu emit_nalu_length
length-emit_sei_payloads_to_avcc_nalu ps h lt =
    let total = size_hint-eq 1 ps h lt in
    (
      size_hint 1 ps,
      6 ∷ emit_sei_payloads ps,
      read_32-write_32 (size_hint 1 ps) (6 ∷ emit_sei_payloads ps) (omega arith),
      omega arith,
    )

-- A short payload is far from the largest NALU.
pub emit_sei_payload-le : (p : SeiPayload) → IsShort p → sei_payload_size_hint p ≤ 600
unfolding sei_payload_size_hint
emit_sei_payload-le p h = omega (arith, count-le-length p.bytes)

pub emit_sei_payloads-le :
    (ps : List SeiPayload)
    → All IsShort ps
    → length (emit_sei_payloads ps) ≤ 600 * length ps + all_start_codes ps
unfolding emit_sei_payloads
emit_sei_payloads-le [] h = omega arith
emit_sei_payloads-le (p ∷ ps) (hp, hps) = omega (
  arith,
  emit_sei_payloads-le ps hps,
  length-append (emit_sei_payload p) (emit_sei_payloads ps),
  length-emit_sei_payload p hp,
  emit_sei_payload-le p hp,
)
