-- ===== src/H264/Sei.antt =====
-- src/h264/sei_payload.h, src/h264/sei_parser.cpp, src/h264/sei_parser.h and src/h264/emitter.h:
-- SEI payloads, read from an SODB and written into an AVCC NALU.
pub mod Variadic
pub mod Bounds
pub mod Emit
pub mod Extract
pub mod Several
use metamix.Base.{ℕ, zero, suc, ◌+◌, ◌-◌, ◌*◌, ◌/◌, ◌%◌, ◌^◌, ◌≤◌, ◌<◌, List, [], ◌∷◌, ◌++◌, arith}
use metamix.Base.{Option, none, some, if◌then◌else◌, ltb, ◌==◌, length}
use metamix.Base.Order.{lt_wf}
use metamix.Binary.Outcome.{Outcome, ok, fault, throw, bind, malformed_sei, Reader}
use metamix.Binary.Parser.{Format}
use metamix.H264.Rbsp.{copy_sodb_to_ebsp, count_emulation_prevention_bytes}
use metamix.H264.Nalu.{emit_nalu_length}
use mathlib.Core.Logic.{dite}
use mathlib.Core.WellFounded.{Acc}
use native.Mathlib.Decide.{dec_lt, dec_le}

-- OwnedSeiPayload; SeiType is an unsigned int.
pub record SeiPayload : Type 0 where
  pub payload_type : ℕ
  pub bytes : List ℕ

-- SeiType::USER_DATA_REGISTERED
abbrev pub user_data_registered : ℕ
user_data_registered = 4

-- parse_variadic_length_int. The first byte is read without a test against endptr.
unfoldable pub variadic_loop : ℕ → Reader ℕ
variadic_loop x [] = fault
variadic_loop x (b ∷ []) = if b == 0xFF then throw malformed_sei else ok ((x + b) % 2 ^ 32, [])
variadic_loop x (b ∷ c ∷ s) =
    let rest = variadic_loop ((x + 255) % 2 ^ 32) (c ∷ s) in
    if b == 0xFF then rest else ok ((x + b) % 2 ^ 32, c ∷ s)

unfoldable pub parse_variadic_length_int : Reader ℕ
unfolding variadic_loop
parse_variadic_length_int s = variadic_loop 0 s

-- SeiParserBounds, with the distance from startptr.
pub record SeiBounds : Type 0 where
  pub offset : ℕ
  pub count : ℕ
  pub payload_type : ℕ

-- The test of the payload size, with the bytes left behind the two numbers.
unfoldable pub sei_bounds : ℕ → ℕ → ℕ → List ℕ → Outcome (Option SeiBounds)
sei_bounds total payload_type payload_size s =
    if ltb (length s) payload_size
    then throw malformed_sei
    else ok (
        some
          (record { offset = total - length s; count = payload_size; payload_type = payload_type }))

unfoldable pub sei_parser_next : List ℕ → Outcome (Option SeiBounds)
unfolding parse_variadic_length_int sei_bounds
sei_parser_next [] = ok none
sei_parser_next (b ∷ s) = bind (parse_variadic_length_int (b ∷ s)) λ (payload_type, s₁).
    bind (parse_variadic_length_int s₁)
      λ (payload_size, s₂). sei_bounds (length (b ∷ s)) payload_type payload_size s₂

-- sei_parser_pack
unfoldable pub sei_parser_pack : SeiBounds → List ℕ → Outcome SeiPayload
sei_parser_pack b bytes = ok (record { payload_type = b.payload_type; bytes = bytes })

abbrev pub sei_format : Format SeiPayload SeiBounds
sei_format = record {
  next_bounds = sei_parser_next;
  start = λ b. b.offset;
  size = λ b. b.count;
  pack = sei_parser_pack;
}

-- variadic_length_int_size
unfoldable pub variadic_length_int_size : ℕ → ℕ
variadic_length_int_size num = num / 255 + 1

pub quotient_shrinks : (num : ℕ) → 255 ≤ num → num / 255 < num
quotient_shrinks num h = omega arith

-- emit_variadic_length_int: `num /= 255` in the loop.
unfoldable pub emit_variadic_loop : (num : ℕ) → Acc ◌<◌ num → List ℕ
emit_variadic_loop num (Acc.intro _ smaller) =
    dite (dec_le 255 num)
      (λ h. 0xFF ∷ emit_variadic_loop (num / 255) (smaller _ (quotient_shrinks num h)))
      (λ _. (num % 255) ∷ [])

unfoldable pub emit_variadic_length_int : ℕ → List ℕ
unfolding emit_variadic_loop lt_wf dec_le dec_lt
emit_variadic_length_int num = emit_variadic_loop num (lt_wf.apply num)

unfoldable pub sei_payload_size_hint : SeiPayload → ℕ
unfolding count_emulation_prevention_bytes variadic_length_int_size
sei_payload_size_hint sei =
    (length sei.bytes
      + count_emulation_prevention_bytes sei.bytes
      + 1
      + variadic_length_int_size (length sei.bytes)
      + variadic_length_int_size sei.payload_type)
    % 2 ^ 32

unfoldable pub emit_sei_payload : SeiPayload → List ℕ
unfolding emit_variadic_length_int copy_sodb_to_ebsp
emit_sei_payload sei =
    emit_variadic_length_int sei.payload_type
    ++ (emit_variadic_length_int (length sei.bytes) ++ copy_sodb_to_ebsp sei.bytes)

-- The first loop of emit_sei_payloads_to_avcc_nalu, on the size of the NALU so far: an int
-- to which unsigned ints are added, by its 32 bits.
unfoldable pub size_hint : ℕ → List SeiPayload → ℕ
size_hint acc [] = acc
size_hint acc (p ∷ ps) = size_hint ((acc + sei_payload_size_hint p) % 2 ^ 32) ps

unfoldable pub emit_sei_payloads : List SeiPayload → List ℕ
emit_sei_payloads [] = []
emit_sei_payloads (p ∷ ps) = emit_sei_payload p ++ emit_sei_payloads ps

-- 6 is SEI_NALU_TYPE_BYTE.
unfoldable pub emit_sei_payloads_to_avcc_nalu : List SeiPayload → List ℕ
emit_sei_payloads_to_avcc_nalu ps = emit_nalu_length (size_hint 1 ps) ++ (6 ∷ emit_sei_payloads ps)
