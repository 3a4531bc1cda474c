-- ===== src/Binary/RoundTrip.antt =====
-- Each reader reads back what its writer wrote, and leaves the bytes that follow.
use metamix.Base.{ℕ, ◌%◌, ◌^◌, ◌<◌, List, ◌++◌, ◌≡◌, arith}
use metamix.Binary.Outcome.{ok}
use metamix.Binary.Read.{read_8, read_16, read_32, read_33, scan_flag}
use metamix.Base.Bits.{bit_at}
use metamix.Binary.Write.{write_8, write_16, write_32, write_33_prefix}

pub read_8-write_8 : (v : ℕ) (s : List ℕ) → v < 256 → read_8 (write_8 v ++ s) ≡ ok (v, s)
unfolding read_8 write_8
read_8-write_8 v s h = ground arith

pub read_16-write_16 : (v : ℕ) (s : List ℕ) → v < 2 ^ 16 → read_16 (write_16 v ++ s) ≡ ok (v, s)
unfolding read_16 write_16
read_16-write_16 v s h = ground arith

pub read_32-write_32 : (v : ℕ) (s : List ℕ) → v < 2 ^ 32 → read_32 (write_32 v ++ s) ≡ ok (v, s)
unfolding read_32 write_32
read_32-write_32 v s h = ground arith

pub read_33-write_33_prefix :
    (p v : ℕ) (s : List ℕ) → v < 2 ^ 33 → read_33 (write_33_prefix p v ++ s) ≡ ok (v, s)
unfolding read_33 write_33_prefix
read_33-write_33_prefix p v s h = ground arith

-- The flag in the top bit of a 33-bit field's prefix.
pub scan_flag-write_33_prefix :
    (p v : ℕ) (s : List ℕ)
    → p < 256
    → scan_flag 7 (write_33_prefix p v ++ s) ≡ ok (bit_at p 7, write_33_prefix p v ++ s)
unfolding scan_flag write_33_prefix
scan_flag-write_33_prefix p v s h = ground arith

-- A flag of a byte that was written.
pub scan_flag-write_8 :
    (k v : ℕ) (s : List ℕ)
    → v < 256
    → scan_flag k (write_8 v ++ s) ≡ ok (bit_at v k, write_8 v ++ s)
unfolding scan_flag write_8
scan_flag-write_8 k v s h = rw (mod_byte v h)
  where
    mod_byte : (v : ℕ) → v < 256 → v % 256 ≡ v
    mod_byte v h = omega arith
