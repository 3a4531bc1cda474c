-- ===== src/H264/Rbsp/RoundTrip.antt =====
-- When removing the emulation prevention bytes gives the payload back.
use metamix.Base.{ℕ, ◌+◌, List, [], ◌∷◌, ◌++◌, ◌≡◌, ◌↔◌, refl, ap, arith}
use metamix.Base.{if◌then◌else◌, leb, ◌==◌, length, ◌&&◌}
use metamix.Binary.Outcome.{ok, bind}
use metamix.H264.Rbsp.{two_zeros, escape_loop, unescape_loop, escape, unescape}
use metamix.H264.Rbsp.{drop_stop_bit, copy_sodb_to_ebsp, copy_ebsp_to_sodb}
use mathlib.Core.List.{reverse-append, reverse-reverse}

-- How often a byte of at most 3 stands behind three zero bytes, the last three bytes being a b c.
unfoldable pub zero_runs_behind : ℕ → ℕ → ℕ → List ℕ → ℕ
unfolding two_zeros
zero_runs_behind a b c [] = 0
zero_runs_behind a b c (x ∷ xs) =
    (if two_zeros a b && (c == 0) && leb x 3 then 1 else 0) + zero_runs_behind b c x xs

unfoldable pub zero_runs : List ℕ → ℕ
unfolding zero_runs_behind
zero_runs (a ∷ b ∷ xs) = zero_runs_behind 1 a b xs
zero_runs _ = 0

-- What unescape_loop saw last but one when escape_loop has passed a b c.
seen : ℕ → ℕ → ℕ → ℕ
unfolding two_zeros
seen a b c = if two_zeros a b && leb c 3 then 3 else b

length-unescape_loop :
    (a b c : ℕ) (xs : List ℕ)
    → length (unescape_loop (seen a b c) c (escape_loop b c xs))
      ≡ length xs + zero_runs_behind a b c xs
unfolding seen unescape_loop escape_loop zero_runs_behind
length-unescape_loop a b c [] = omega arith
length-unescape_loop a b c (x ∷ xs) = ground (arith, length-unescape_loop b c x xs)

unescape_loop-escape_loop :
    (a b c : ℕ) (xs : List ℕ)
    → zero_runs_behind a b c xs ≡ 0
    → unescape_loop (seen a b c) c (escape_loop b c xs) ≡ xs
unfolding seen unescape_loop escape_loop zero_runs_behind
unescape_loop-escape_loop a b c [] h = refl
unescape_loop-escape_loop a b c (x ∷ xs) h = ground (arith, unescape_loop-escape_loop b c x xs)

-- Every run of three zero bytes before a byte of at most 3 leaves one byte too many.
pub length-unescape-escape :
    (xs : List ℕ) → length (unescape (escape xs)) ≡ length xs + zero_runs xs
unfolding unescape escape zero_runs seen
length-unescape-escape [] = omega arith
length-unescape-escape (a ∷ []) = omega arith
length-unescape-escape (a ∷ b ∷ xs) = omega (arith, length-unescape_loop 1 a b xs)

pub unescape-escape : (xs : List ℕ) → zero_runs xs ≡ 0 → unescape (escape xs) ≡ xs
unfolding unescape escape zero_runs seen
unescape-escape [] h = refl
unescape-escape (a ∷ []) h = refl
unescape-escape (a ∷ b ∷ xs) h = cc (unescape_loop-escape_loop 1 a b xs h)

-- The stop bit that copy_to_ebsp_impl adds is the one that copy_from_ebsp_impl drops.
drop_stop_bit-marker : (xs : List ℕ) → drop_stop_bit (xs ++ (0x80 ∷ [])) ≡ ok xs
unfolding drop_stop_bit
drop_stop_bit-marker xs = rw (reverse-append xs (0x80 ∷ [])) (ap ok (reverse-reverse xs))

-- Nonempty ranges: what is dropped is what was added.
pub copy_ebsp_to_sodb-marker :
    (x : ℕ) (xs : List ℕ) → copy_ebsp_to_sodb ((x ∷ xs) ++ (0x80 ∷ [])) ≡ ok (unescape (x ∷ xs))
unfolding copy_ebsp_to_sodb
copy_ebsp_to_sodb-marker x xs =
    ap (λ r. bind r (λ body. ok (unescape body))) (drop_stop_bit-marker (x ∷ xs))

extracted : (xs : List ℕ) → copy_ebsp_to_sodb (copy_sodb_to_ebsp xs) ≡ ok (unescape (escape xs))
extracted [] = unfold copy_ebsp_to_sodb copy_sodb_to_ebsp escape unescape in refl
extracted (a ∷ []) = unfold copy_sodb_to_ebsp escape in copy_ebsp_to_sodb-marker a []
extracted (a ∷ b ∷ xs) =
    unfold copy_sodb_to_ebsp escape in copy_ebsp_to_sodb-marker a (b ∷ escape_loop a b xs)

-- copy_ebsp_to_sodb gives back the payload that copy_sodb_to_ebsp wrote exactly when no byte of at
-- most 3 stands behind three zero bytes of the payload.
pub copy_ebsp_to_sodb-copy_sodb_to_ebsp :
    (xs : List ℕ) → (copy_ebsp_to_sodb (copy_sodb_to_ebsp xs) ≡ ok xs) ↔ (zero_runs xs ≡ 0)
copy_ebsp_to_sodb-copy_sodb_to_ebsp xs = (
  (λ e.
      let same : unescape (escape xs) ≡ xs = cc (extracted xs) in
      omega (arith, length-unescape-escape xs, ap length same)),
  (λ h. cc (extracted xs, unescape-escape xs h)),
)
