-- ===== src/Scte35/Crc.antt =====
-- src/scte35/crc32.h and src/scte35/crc32.cpp: the CRC of a section.
pub mod Table
pub mod Residue
use metamix.Base.{ℕ, zero, suc, ◌+◌, ◌*◌, ◌/◌, ◌%◌, ◌^◌, List, [], ◌∷◌, bit_xor}
use metamix.Scte35.Crc.Table.{crc_table}

-- CRC_TABLE[i]
unfoldable pub table_at : List ℕ → ℕ → ℕ
table_at [] i = 0
table_at (x ∷ xs) zero = x
table_at (x ∷ xs) (suc i) = table_at xs i

-- CRC32::update on m_value, a uint64_t. The mask 0x00ff is `% 256`.
unfoldable pub update : ℕ → ℕ → ℕ
unfolding table_at
update m_value byte =
    bit_xor (m_value * 256 % 2 ^ 64)
      (table_at crc_table (bit_xor (m_value / 2 ^ 24 % 256) byte % 256))

-- CRC32::update on a range
unfoldable pub update_range : ℕ → List ℕ → ℕ
unfolding update
update_range m_value [] = m_value
update_range m_value (b ∷ bs) = update_range (update m_value b) bs

-- CRC32::value
unfoldable pub value : ℕ → ℕ
value m_value = m_value % 2 ^ 32

-- CRC32::compute, and the conversion to uint32_t
unfoldable pub compute : List ℕ → ℕ
unfolding update_range value
compute bytes = value (update_range 0xffffffff bytes)
