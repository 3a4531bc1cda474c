-- ===== src/H264/StdSeis.antt =====
-- src/h264/stdseis.cpp: the closed captions that stand for none, and those that clear the screen.
use metamix.Base.{ℕ, ◌-◌, ◌^◌, List, [], ◌∷◌, ◌++◌}
use metamix.H264.Sei.{SeiPayload, user_data_registered}
use metamix.MetadataQueue.{Metadata}

-- The limits of `int`, by their distance from the smallest one, as in Metadata.
abbrev pub int_min : ℕ
int_min = 0

abbrev pub int_max : ℕ
int_max = 2 ^ 32 - 1

-- From itu_t_t35_country_code to ATSC1_data_user_data_type_code.
abbrev pub sei_prefix : List ℕ
sei_prefix = 181 ∷ 0 ∷ 49 ∷ b'G' ∷ b'A' ∷ b'9' ∷ b'4' ∷ 3 ∷ []

-- EMPTY_SEI
abbrev pub empty_sei : SeiPayload
empty_sei = record {
  payload_type = user_data_registered;
  bytes =
      sei_prefix
      ++ (0x44 ∷ 0x00 ∷ 0xFC ∷ 0x80 ∷ 0x80 ∷ 0xFD ∷ 0x01 ∷ 0x85 ∷ 0xFA ∷ 0x00 ∷ 0x00 ∷ 0xFA ∷ 0x00
          ∷ 0x00 ∷ 0xFF ∷ []);
}

-- RESET_SEI
abbrev pub reset_sei : SeiPayload
reset_sei = record {
  payload_type = user_data_registered;
  bytes =
      sei_prefix
      ++ (0x52 ∷ 0x00 ∷ 0xFC ∷ 0x94 ∷ 0x2C ∷ 0xFC ∷ 0x94 ∷ 0xAE ∷ 0xFC ∷ 0x94 ∷ 0x2F ∷ 0xFC ∷ 0x1C
          ∷ 0x2C ∷ 0xFC ∷ 0x1C ∷ 0xAE ∷ 0xFC ∷ 0x1C ∷ 0x2F ∷ 0xFD ∷ 0x94 ∷ 0x2C ∷ 0xFD ∷ 0x94 ∷ 0xAE
          ∷ 0xFD ∷ 0x94 ∷ 0x2F ∷ 0xFD ∷ 0x1C ∷ 0x2C ∷ 0xFD ∷ 0x1C ∷ 0xAE ∷ 0xFD ∷ 0x1C ∷ 0x2F ∷ 0xFF
          ∷ 0x02 ∷ 0x21 ∷ 0xFE ∷ 0x8F ∷ 0x00 ∷ 0xFF ∷ 0x02 ∷ 0x41 ∷ 0xFE ∷ 0x8F ∷ 0x00 ∷ 0xFA ∷ 0x00
          ∷ 0x00 ∷ 0xFA ∷ 0x00 ∷ 0x00 ∷ 0xFF ∷ []);
}

unfoldable pub build_empty_metadata : ℕ → ℕ → Metadata SeiPayload
build_empty_metadata input_id ts = record {
  input_id = input_id;
  pts = ts;
  dts = ts;
  order = int_max;
  val = empty_sei;
}

unfoldable pub build_cc_reset_metadata : ℕ → ℕ → Metadata SeiPayload
build_cc_reset_metadata input_id ts = record {
  input_id = input_id;
  pts = ts;
  dts = ts;
  order = int_min;
  val = reset_sei;
}
