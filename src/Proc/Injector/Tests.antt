-- ===== src/Proc/Injector/Tests.antt =====
-- The injector at a concrete packet: a delimiter, a caption and a slice.
use metamix.Base.{ℕ, ◌++◌, List, [], ◌∷◌, ◌≡◌, refl, some, arith}
use metamix.Binary.Outcome.{ok}
use metamix.Binary.Parser.Drain.{packets}
use metamix.H264.Rbsp.Size.{start_codes}
use metamix.H264.Sei.Emit.{IsShort, emit_sei_payloads-le}
use metamix.Base.{All}
use metamix.H264.Nalu.{is_valid, nalu_type, nalu_format, front, is_empty}
use metamix.H264.Nalu.Framing.{emit_nalus}
use metamix.H264.Sei.{SeiPayload, emit_sei_payloads}
use metamix.MetadataQueue.{Metadata}
use metamix.Proc.Injector.{remux, non_cc_seis, is_leading}
use metamix.Proc.Injector.Remux.{middle, remux-lem}

abbrev payload_of : ℕ → SeiPayload
payload_of payload_type = record { payload_type = payload_type; bytes = 0xB5 ∷ 0x05 ∷ 0x31 ∷ [] }

abbrev found : Metadata SeiPayload
found = record { input_id = 1; pts = 3; dts = 3; order = 0; val = payload_of 4 }

abbrev lead : List (List ℕ)
lead = (0x09 ∷ 0xF0 ∷ []) ∷ []

abbrev rest : List (List ℕ)
rest = (0x65 ∷ 0x88 ∷ []) ∷ []

-- A payload of type 5 is kept in front of the item found.
remux-lem_example :
    (buf : List ℕ) × (remux
        (found ∷ [])
        (emit_nalus (lead ++ (middle (some (payload_of 5)) ++ rest)))
      ≡ ok buf)
    × (packets nalu_format buf ≡ (
      lead ++ ((6 ∷ emit_sei_payloads (payload_of 5 ∷ payload_of 4 ∷ [])) ∷ rest),
      some (ok tt),
    ))
unfolding is_valid nalu_type front is_empty start_codes is_leading non_cc_seis
remux-lem_example =
    let seis : List SeiPayload = payload_of 5 ∷ payload_of 4 ∷ [] in
    let short : All IsShort seis =
      ((omega arith, omega arith, omega arith), ((omega arith, omega arith, omega arith), tt)) in
    remux-lem lead (some (payload_of 5)) rest (found ∷ [])
      ((((omega arith, omega arith), refl), refl), tt)
      ((omega arith, omega arith, omega arith), refl) (((omega arith, omega arith), refl), tt) short
      refl (omega (arith, emit_sei_payloads-le seis short))
