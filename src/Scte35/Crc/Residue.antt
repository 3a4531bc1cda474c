-- ===== src/Scte35/Crc/Residue.antt =====
-- A CRC written behind the bytes it was computed from makes the CRC of the whole zero.
use metamix.Base.{ℕ, ◌*◌, ◌/◌, ◌%◌, ◌^◌, List, [], ◌∷◌, ◌++◌, ◌≡◌, refl, ◌∙◌, ap, arith}
use metamix.Base.Bits.{xor_self, xor_zero, byte_at}
use metamix.Binary.Write.{write_32}
use metamix.Scte35.Crc.{update, update_range, value, compute}
use metamix.Scte35.Crc.Table.{crc_table}

update_range-append :
    (m : ℕ) (xs ys : List ℕ) → update_range m (xs ++ ys) ≡ update_range (update_range m xs) ys
unfolding update_range
update_range-append m [] ys = refl
update_range-append m (x ∷ xs) ys = update_range-append (update m x) xs ys

-- The byte at the top of the register clears the table index: the register is shifted.
update_top : (m b : ℕ) → b ≡ m / 2 ^ 24 % 256 → update m b ≡ m * 256 % 2 ^ 64
unfolding update crc_table
update_top m b h = rw (h, xor_self (m / 2 ^ 24 % 256) (omega arith)) (xor_zero _)

abbrev value_of : ℕ → ℕ
value_of m = m % 2 ^ 32

residue : (m : ℕ) → value (update_range m (write_32 (value m))) ≡ 0
unfolding update_range value write_32
residue m =
    let m₁ : ℕ = m * 256 % 2 ^ 64 in
    let m₂ : ℕ = m₁ * 256 % 2 ^ 64 in
    let m₃ : ℕ = m₂ * 256 % 2 ^ 64 in
    rw
      (
        update_top m (byte_at (value_of m) 24) (omega arith),
        update_top m₁ (byte_at (value_of m) 16) (omega arith),
        update_top m₂ (byte_at (value_of m) 8) (omega arith),
        update_top m₃ (byte_at (value_of m) 0) (omega arith),
      )
      (omega arith)

-- The CRC of any bytes followed by their CRC, as the emitter writes it, is the 0 that the parser
-- asks for.
pub compute-append : (bytes : List ℕ) → compute (bytes ++ write_32 (compute bytes)) ≡ 0
unfolding compute
compute-append bytes =
    ap value (update_range-append 0xffffffff bytes _) ∙ residue (update_range 0xffffffff bytes)
