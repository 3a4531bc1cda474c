-- ===== src/H264/Rbsp.antt =====
-- src/h264/rbsp.h: emulation prevention. An input range is the list of its bytes, and the bytes put
-- to `dest` are the list returned. Both copying loops look back at two bytes of their *input*, so
-- they carry first[-2] and first[-1].
pub mod StartCodes
pub mod RoundTrip
pub mod Size
pub mod Plain
use metamix.Base.{ℕ, zero, suc, ◌+◌, ◌≤◌, List, [], ◌∷◌, ◌++◌, Bool, true, false, ◌&&◌}
use metamix.Base.{if◌then◌else◌, ltb, leb, ◌==◌, length}
use metamix.Binary.Outcome.{Outcome, ok, runtime_error, fault, bind}
use mathlib.Core.List.{reverse}

-- first[-2] == 0 && first[-1] == 0
unfoldable pub two_zeros : ℕ → ℕ → Bool
two_zeros a b = (a == 0) && (b == 0)

-- The loop of copy_from_ebsp_impl behind the first two bytes.
unfoldable pub unescape_loop : ℕ → ℕ → List ℕ → List ℕ
unfolding two_zeros
unescape_loop a b [] = []
unescape_loop a b (x ∷ xs) =
    let rest = unescape_loop b x xs in if two_zeros a b && (x == 3) then rest else x ∷ rest

-- The loop of copy_to_ebsp_impl behind the first two bytes.
unfoldable pub escape_loop : ℕ → ℕ → List ℕ → List ℕ
unfolding two_zeros
escape_loop a b [] = []
escape_loop a b (x ∷ xs) =
    let rest = escape_loop b x xs in if two_zeros a b && leb x 3 then 3 ∷ x ∷ rest else x ∷ rest

-- copy_from_ebsp_impl without its stop bit part: ranges of at most two bytes are copied.
unfoldable pub unescape : List ℕ → List ℕ
unfolding unescape_loop
unescape (a ∷ b ∷ xs) = a ∷ b ∷ unescape_loop a b xs
unescape xs = xs

-- copy_to_ebsp_impl without its stop bit part.
unfoldable pub escape : List ℕ → List ℕ
unfolding escape_loop
escape (a ∷ b ∷ xs) = a ∷ b ∷ escape_loop a b xs
escape xs = xs

-- `while (last[-1] == 0) last--`, on the reversed range. Zeros up to the front make it read in
-- front of the range.
unfoldable pub skip_zeros : List ℕ → Outcome (List ℕ)
skip_zeros [] = fault
skip_zeros (x ∷ xs) = if x == 0 then skip_zeros xs else ok (x ∷ xs)

-- `if (last[-1] != 0x80) throw …; last--`.
unfoldable pub drop_marker : List ℕ → Outcome (List ℕ)
drop_marker [] = fault
drop_marker (x ∷ xs) = if x == 0x80 then ok (reverse xs) else runtime_error

unfoldable pub drop_stop_bit : List ℕ → Outcome (List ℕ)
unfolding skip_zeros drop_marker
drop_stop_bit xs = bind (skip_zeros (reverse xs)) drop_marker

-- copy_from_ebsp_impl<false>
unfoldable pub copy_ebsp_to_rbsp : List ℕ → List ℕ
unfolding unescape
copy_ebsp_to_rbsp xs = unescape xs

-- copy_from_ebsp_impl<true>
unfoldable pub copy_ebsp_to_sodb : List ℕ → Outcome (List ℕ)
unfolding unescape drop_stop_bit
copy_ebsp_to_sodb [] = ok []
copy_ebsp_to_sodb (x ∷ xs) = bind (drop_stop_bit (x ∷ xs)) λ body. ok (unescape body)

-- copy_to_ebsp_impl<false>
unfoldable pub copy_rbsp_to_ebsp : List ℕ → List ℕ
unfolding escape
copy_rbsp_to_ebsp xs = escape xs

-- copy_to_ebsp_impl<true>: an empty range gets no stop bit.
unfoldable pub copy_sodb_to_ebsp : List ℕ → List ℕ
unfolding escape
copy_sodb_to_ebsp [] = []
copy_sodb_to_ebsp (x ∷ xs) = escape (x ∷ xs) ++ (0x80 ∷ [])

unfoldable pub count_loop : ℕ → ℕ → List ℕ → ℕ
unfolding two_zeros
count_loop a b [] = 0
count_loop a b (x ∷ xs) =
    let rest = count_loop b x xs in if two_zeros a b && (x == 3) then rest + 1 else rest

unfoldable pub count_emulation_prevention_bytes : List ℕ → ℕ
unfolding count_loop
count_emulation_prevention_bytes (a ∷ b ∷ xs) = count_loop a b xs
count_emulation_prevention_bytes _ = 0
