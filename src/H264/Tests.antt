-- ===== src/H264/Tests.antt =====
-- The theorems on NALUs and SEI payloads, at concrete bytes.
use metamix.Base.{
  ℕ, ◌+◌, ◌<◌, List, [], ◌∷◌, ◌++◌, ◌≡◌, ◌≢◌, ◌↔◌, ◌⊎◌, refl, Option, some, none, length, arith,
}
use metamix.Binary.Outcome.{Outcome, ok}
use metamix.Binary.Parser.Drain.{packets, packets-ne-none}
use Prim.Native.String.{String}
use text.Mathlib.Text.{◌==◌}
use metamix.Base.{◌↔◌, if◌then◌else◌}
use metamix.H264.Nalu.Names.{nalu_type_to_string, string_to_nalu_type, string_to_nalu_type_iff}
use metamix.H264.Rbsp.{copy_sodb_to_ebsp, copy_ebsp_to_sodb}
use metamix.H264.Rbsp.StartCodes.{IsEscaped, copy_sodb_to_ebsp-IsEscaped}
use metamix.H264.Rbsp.RoundTrip.{zero_runs, copy_ebsp_to_sodb-copy_sodb_to_ebsp}
use metamix.H264.Nalu.{NaluBounds, nalu_parser_next, nalu_format}
use metamix.H264.Nalu.Bounds.{nalu_format-IsBounded}
use metamix.H264.Nalu.Framing.{emit_nalus, packets-emit_nalus}
use metamix.H264.Sei.{
  SeiPayload, SeiBounds, sei_parser_next, parse_variadic_length_int, emit_variadic_length_int,
  emit_sei_payloads_to_avcc_nalu,
}
use metamix.H264.Sei.Variadic.{parse_variadic-emit}
use metamix.H264.Sei.Emit.{
  IsShort, all_start_codes, emit_sei_payloads-le, length-emit_sei_payloads_to_avcc_nalu,
}
use metamix.H264.Sei.{emit_sei_payloads}
use metamix.H264.Sei.Several.{IsMisread, two_payloads-IsMisread}
use metamix.H264.Rbsp.Plain.{escapes}
use metamix.H264.Rbsp.Size.{start_codes}
use metamix.Binary.Read.{read_32}
use metamix.Base.{All}
use metamix.H264.Sei.Extract.{nalu_payloads}

-- A payload with a start code, and one without.
abbrev raw : List ℕ
raw = 0xB5 ∷ 0x00 ∷ 0x00 ∷ 0x01 ∷ 0x31 ∷ []

abbrev caption : SeiPayload
caption = record { payload_type = 4; bytes = 0xB5 ∷ 0x00 ∷ 0x31 ∷ [] }

abbrev zeros : List ℕ
zeros = 0x00 ∷ 0x00 ∷ 0x00 ∷ 0x00 ∷ []

abbrev two_nalus : List (List ℕ)
two_nalus = (0x09 ∷ 0xF0 ∷ []) ∷ (0x65 ∷ []) ∷ []

escaped_bytes : copy_sodb_to_ebsp raw ≡ 0xB5 ∷ 0x00 ∷ 0x00 ∷ 0x03 ∷ 0x01 ∷ 0x31 ∷ 0x80 ∷ []
unfolding copy_sodb_to_ebsp
escaped_bytes = refl

copy_sodb_to_ebsp-IsEscaped_example : IsEscaped (copy_sodb_to_ebsp raw)
copy_sodb_to_ebsp-IsEscaped_example = copy_sodb_to_ebsp-IsEscaped raw

round_trip_example :
    (copy_ebsp_to_sodb (copy_sodb_to_ebsp zeros) ≡ ok zeros) ↔ (zero_runs zeros ≡ 0)
round_trip_example = copy_ebsp_to_sodb-copy_sodb_to_ebsp zeros

abbrev framed : List ℕ
framed = 0 ∷ 0 ∷ 0 ∷ 2 ∷ 0x09 ∷ 0xF0 ∷ 0 ∷ []

abbrev framed_bounds : NaluBounds
framed_bounds = record { offset = 4; count = 2 }

framed_next : nalu_parser_next framed ≡ ok (some framed_bounds)
unfolding nalu_parser_next
framed_next = refl

packets-ne-none_example : (packets nalu_format framed).1 ≢ none
packets-ne-none_example = packets-ne-none nalu_format nalu_format-IsBounded framed

packets-emit_nalus_example : packets nalu_format (emit_nalus two_nalus) ≡ (two_nalus, some (ok tt))
packets-emit_nalus_example =
    packets-emit_nalus two_nalus ((omega arith, omega arith), ((omega arith, omega arith), tt))

abbrev large : ℕ
large = 300

parse_variadic-emit_example :
    (parse_variadic_length_int (emit_variadic_length_int large ++ (7 ∷ [])) ≡ ok (large, 7 ∷ []))
    ↔ ((large < 255) ⊎ (large ≡ 256))
parse_variadic-emit_example = parse_variadic-emit large (7 ∷ []) (omega arith)

abbrev sodb : List ℕ
sodb = 4 ∷ 2 ∷ 0xB5 ∷ 0x31 ∷ 0x80 ∷ []

abbrev sodb_bounds : SeiBounds
sodb_bounds = record { offset = 2; count = 2; payload_type = 4 }

sodb_next : sei_parser_next sodb ≡ ok (some sodb_bounds)
unfolding sei_parser_next
sodb_next = refl

abbrev two_payloads : List SeiPayload
two_payloads = caption ∷ record { payload_type = 5; bytes = raw } ∷ []

announced_length_example :
    (announced : ℕ) × (following : List ℕ) × (read_32 (emit_sei_payloads_to_avcc_nalu two_payloads)
      ≡ ok (announced, following))
    × (length following ≡ announced + all_start_codes two_payloads)
unfolding start_codes
announced_length_example =
    let short : All IsShort two_payloads =
      ((omega arith, omega arith, omega arith), ((omega arith, omega arith, omega arith), tt)) in
    length-emit_sei_payloads_to_avcc_nalu two_payloads short
      (omega (arith, emit_sei_payloads-le two_payloads short))

abbrev plain_caption : SeiPayload
plain_caption = record { payload_type = 4; bytes = 0xB5 ∷ 0x05 ∷ 0x31 ∷ [] }

two_payloads-IsMisread_example :
    (more : List SeiPayload) × (ended : Option (Outcome (Unit {0}))) × (nalu_payloads
        (6 ∷ emit_sei_payloads (caption ∷ plain_caption ∷ []))
      ≡ ok (caption ∷ more, ended))
    × IsMisread more
unfolding escapes
two_payloads-IsMisread_example =
    two_payloads-IsMisread caption plain_caption (omega arith, omega arith, omega arith)
      (omega arith, omega arith, omega arith) refl refl

-- An upper-casing that knows one text.
abbrev to_upper : String → String
to_upper str = if str == "sei" then "SEI" else str

string_to_nalu_type_iff_example :
    (string_to_nalu_type to_upper "sei" ≡ some 6) ↔ (nalu_type_to_string 6 ≡ some "SEI")
string_to_nalu_type_iff_example = string_to_nalu_type_iff to_upper "sei" 6
