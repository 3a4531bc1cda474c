-- ===== src/H264/Rbsp/Size.antt =====
-- How many bytes the escaping adds, against the count that the size hints use.
use metamix.Base.{ℕ, ◌+◌, ◌≤◌, ◌<◌, List, [], ◌∷◌, ◌≡◌, arith}
use metamix.Base.{if◌then◌else◌, leb, ◌==◌, length, length-append, ◌&&◌}
use metamix.H264.Rbsp.{two_zeros, escape_loop, escape, copy_sodb_to_ebsp}
use metamix.H264.Rbsp.RoundTrip.{zero_runs_behind, zero_runs}
use metamix.H264.Rbsp.{count_loop, count_emulation_prevention_bytes}

-- How often a byte of at most 2 stands behind two zero bytes.
escaped_behind : ℕ → ℕ → List ℕ → ℕ
unfolding two_zeros
escaped_behind a b [] = 0
escaped_behind a b (x ∷ xs) = (if two_zeros a b && leb x 2 then 1 else 0) + escaped_behind b x xs

unfoldable pub start_codes : List ℕ → ℕ
unfolding escaped_behind
start_codes (a ∷ b ∷ xs) = escaped_behind a b xs
start_codes _ = 0

length-escape_loop :
    (a b : ℕ) (xs : List ℕ)
    → length (escape_loop a b xs) ≡ length xs + count_loop a b xs + escaped_behind a b xs
unfolding escape_loop count_loop escaped_behind
length-escape_loop a b [] = omega arith
length-escape_loop a b (x ∷ xs) = ground (arith, length-escape_loop b x xs)

length-escape :
    (xs : List ℕ)
    → length (escape xs) ≡ length xs + count_emulation_prevention_bytes xs + start_codes xs
unfolding escape count_emulation_prevention_bytes start_codes
length-escape [] = omega arith
length-escape (a ∷ []) = omega arith
length-escape (a ∷ b ∷ xs) = omega (arith, length-escape_loop a b xs)

-- What copy_sodb_to_ebsp writes for a nonempty payload is longer than the payload by the stop bit,
-- by the bytes that count_emulation_prevention_bytes counts, and by the start codes of the payload,
-- which it does not count.
pub length-copy_sodb_to_ebsp :
    (xs : List ℕ)
    → 0 < length xs
    → length (copy_sodb_to_ebsp xs)
      ≡ length xs + count_emulation_prevention_bytes xs + start_codes xs + 1
unfolding copy_sodb_to_ebsp
length-copy_sodb_to_ebsp [] h = absurd (omega arith)
length-copy_sodb_to_ebsp (x ∷ xs) h =
    omega (arith, length-append (escape (x ∷ xs)) (0x80 ∷ []), length-escape (x ∷ xs))

-- A run of three zero bytes holds a start code, so payloads with no start code have no run.
zero_runs_behind-le :
    (a b c : ℕ) (xs : List ℕ)
    → zero_runs_behind a b c xs
      ≤ (if two_zeros a b && (c == 0) then 1 else 0) + escaped_behind b c xs
unfolding zero_runs_behind escaped_behind
zero_runs_behind-le a b c [] = omega arith
zero_runs_behind-le a b c (x ∷ xs) = ground (arith, zero_runs_behind-le b c x xs)

pub zero_runs-le-start_codes : (xs : List ℕ) → zero_runs xs ≤ start_codes xs
unfolding zero_runs start_codes two_zeros
zero_runs-le-start_codes [] = omega arith
zero_runs-le-start_codes (a ∷ []) = omega arith
zero_runs-le-start_codes (a ∷ b ∷ xs) = omega (arith, zero_runs_behind-le 1 a b xs)

count_loop-le : (a b : ℕ) (xs : List ℕ) → count_loop a b xs ≤ length xs
unfolding count_loop
count_loop-le a b [] = omega arith
count_loop-le a b (x ∷ xs) = ground (arith, count_loop-le b x xs)

pub count-le-length : (xs : List ℕ) → count_emulation_prevention_bytes xs ≤ length xs
unfolding count_emulation_prevention_bytes
count-le-length [] = omega arith
count-le-length (a ∷ []) = omega arith
count-le-length (a ∷ b ∷ xs) = omega (arith, count_loop-le a b xs)
