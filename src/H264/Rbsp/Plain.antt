-- ===== src/H264/Rbsp/Plain.antt =====
-- Bytes that escaping leaves as they are.
use metamix.Base.{
  ℕ, ◌+◌, ◌<◌, List, [], ◌∷◌, ◌++◌, ◌≡◌, refl, arith, ap, ◌&&◌, if◌then◌else◌, leb, length,
}
use metamix.H264.Rbsp.{two_zeros, escape, escape_loop, unescape_loop, copy_sodb_to_ebsp}

-- How often a byte of at most 3 stands behind two zero bytes: 0 for bytes that escaping leaves.
unfoldable pub escapes_behind : ℕ → ℕ → List ℕ → ℕ
unfolding two_zeros
escapes_behind a b [] = 0
escapes_behind a b (x ∷ xs) = (if two_zeros a b && leb x 3 then 1 else 0) + escapes_behind b x xs

unfoldable pub escapes : List ℕ → ℕ
unfolding escapes_behind
escapes (a ∷ b ∷ xs) = escapes_behind a b xs
escapes _ = 0

escape_loop-none : (a b : ℕ) (xs : List ℕ) → escapes_behind a b xs ≡ 0 → escape_loop a b xs ≡ xs
unfolding escape_loop escapes_behind
escape_loop-none a b [] h = refl
escape_loop-none a b (x ∷ xs) h = ground (arith, escape_loop-none b x xs)

escape-none : (xs : List ℕ) → escapes xs ≡ 0 → escape xs ≡ xs
unfolding escape escapes
escape-none [] h = refl
escape-none (a ∷ []) h = refl
escape-none (a ∷ b ∷ xs) h = ap (λ t. a ∷ b ∷ t) (escape_loop-none a b xs h)

pub unescape_loop-none :
    (a b : ℕ) (xs : List ℕ) → escapes_behind a b xs ≡ 0 → unescape_loop a b xs ≡ xs
unfolding unescape_loop escapes_behind
unescape_loop-none a b [] h = refl
unescape_loop-none a b (x ∷ xs) h = ground (arith, unescape_loop-none b x xs)

-- A stop bit and two header bytes begin anew.
pub escapes_behind-append :
    (a b : ℕ) (xs : List ℕ) (t k : ℕ) (ys : List ℕ)
    → escapes_behind a b (xs ++ (0x80 ∷ t ∷ k ∷ ys)) ≡ escapes_behind a b xs + escapes_behind t k ys
unfolding escapes_behind
escapes_behind-append a b [] t k ys = ground arith
escapes_behind-append a b (x ∷ xs) t k ys = omega (arith, escapes_behind-append b x xs t k ys)

pub escapes_behind-header : (t k : ℕ) (xs : List ℕ) → 0 < k → escapes_behind t k xs ≡ escapes xs
unfolding escapes escapes_behind
escapes_behind-header t k [] h = refl
escapes_behind-header t k (x ∷ []) h = ground arith
escapes_behind-header t k (x ∷ y ∷ xs) h = ground arith

pub copy_sodb_to_ebsp-none :
    (xs : List ℕ) → 0 < length xs → escapes xs ≡ 0 → copy_sodb_to_ebsp xs ≡ xs ++ (0x80 ∷ [])
unfolding copy_sodb_to_ebsp
copy_sodb_to_ebsp-none [] h e = absurd (omega arith)
copy_sodb_to_ebsp-none (x ∷ xs) h e = ap (λ l. l ++ (0x80 ∷ [])) (escape-none (x ∷ xs) e)
