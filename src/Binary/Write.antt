-- ===== src/Binary/Write.antt =====
-- src/binary_emitter_util.h. A parameter of type uint8_t or uint16_t takes its argument modulo
-- 2 ^ 8 or 2 ^ 16; (value & 0xff00) >> 8 is byte_at value 8.
use metamix.Base.{ℕ, ◌+◌, ◌*◌, ◌/◌, ◌%◌, ◌^◌, List, [], ◌∷◌, ◌++◌, bit_or}
use metamix.Base.Bits.{byte_at}

unfoldable pub write_8 : ℕ → List ℕ
write_8 value = (value % 256) ∷ []

unfoldable pub write_12_prefix : ℕ → ℕ → List ℕ
write_12_prefix prefix value = (prefix % 16 * 16 + value / 2 ^ 8 % 16) ∷ (value % 256) ∷ []

-- `low & 0x0f00 >> 4` parses as `low & (0x0f00 >> 4)`, which is low & 0x00f0.
unfoldable pub write_12_pair : ℕ → ℕ → List ℕ
write_12_pair high low =
    (high / 16 % 256) ∷ bit_or (high % 16 * 16) (low / 16 % 16 * 16) ∷ (low % 256) ∷ []

unfoldable pub write_16 : ℕ → List ℕ
write_16 value = byte_at value 8 ∷ byte_at value 0 ∷ []

unfoldable pub write_32 : ℕ → List ℕ
write_32 value = byte_at value 24 ∷ byte_at value 16 ∷ byte_at value 8 ∷ byte_at value 0 ∷ []

-- The mask 0xfe clears the bit that (value & 0x100000000) >> 32 fills, so `|` adds.
unfoldable pub write_33_prefix : ℕ → ℕ → List ℕ
unfolding write_8 write_32
write_33_prefix prefix value =
    write_8 (prefix % 256 / 2 * 2 + value / 2 ^ 32 % 2) ++ write_32 (value % 2 ^ 32)

unfoldable pub write_48 : ℕ → List ℕ
write_48 value =
    byte_at value 40
    ∷ byte_at value 32
    ∷ byte_at value 24
    ∷ byte_at value 16
    ∷ byte_at value 8
    ∷ byte_at value 0
    ∷ []
