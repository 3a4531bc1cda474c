-- ===== src/Binary/Read.antt =====
-- src/binary_parser_util.h. A mask of consecutive bits and the shift behind it are written
-- together: (x & 0b1110'0000) >> 5 is x / 32 % 8. The bytes are below 256, so that the sums stay
-- inside the result types.
use metamix.Base.{ℕ, ◌+◌, ◌*◌, ◌/◌, ◌%◌, ◌^◌, [], ◌∷◌, Bool}
use metamix.Base.Bits.{bit_at}
use metamix.Binary.Outcome.{ok, throw, expected_bytes, Reader}

-- require_distance is the first test of every scan: too few bytes throw.
unfoldable pub scan_8 : Reader ℕ
scan_8 [] = throw expected_bytes
scan_8 (b ∷ s) = ok (b, b ∷ s)

unfoldable pub read_8 : Reader ℕ
read_8 [] = throw expected_bytes
read_8 (b ∷ s) = ok (b, s)

-- `scan_flag k` has the mask 1 << k.
unfoldable pub scan_flag : ℕ → Reader Bool
scan_flag k [] = throw expected_bytes
scan_flag k (b ∷ s) = ok (bit_at b k, b ∷ s)

unfoldable pub scan_12_high : Reader ℕ
scan_12_high (a ∷ b ∷ s) = ok (a * 16 + b / 16 % 16, a ∷ b ∷ s)
scan_12_high _ = throw expected_bytes

unfoldable pub read_12_low : Reader ℕ
read_12_low (a ∷ b ∷ s) = ok (a % 16 * 256 + b, s)
read_12_low _ = throw expected_bytes

unfoldable pub read_16 : Reader ℕ
read_16 (a ∷ b ∷ s) = ok (a * 2 ^ 8 + b, s)
read_16 _ = throw expected_bytes

unfoldable pub read_32 : Reader ℕ
read_32 (a ∷ b ∷ c ∷ d ∷ s) = ok (a * 2 ^ 24 + b * 2 ^ 16 + c * 2 ^ 8 + d, s)
read_32 _ = throw expected_bytes

unfoldable pub read_33 : Reader ℕ
read_33 (p ∷ a ∷ b ∷ c ∷ d ∷ s) = ok (p % 2 * 2 ^ 32 + a * 2 ^ 24 + b * 2 ^ 16 + c * 2 ^ 8 + d, s)
read_33 _ = throw expected_bytes
