-- ===== src/H264/Rbsp/StartCodes.antt =====
-- The escaped bytes never imitate a start code.
use metamix.Base.{ℕ, ◌<◌, List, [], ◌∷◌, ◌++◌, true, false, ◌≡◌, arith, inl, inr}
use metamix.Base.{leb, Bool-cases, ◌&&◌}
use metamix.H264.Rbsp.{two_zeros, escape_loop, copy_sodb_to_ebsp}

-- The bytes 00 00 00, 00 00 01 and 00 00 02 stand nowhere behind a and b.
abbrev pub NoStartCode : ℕ → ℕ → List ℕ → Type 0
NoStartCode a b [] = Unit {0}
NoStartCode a b (x ∷ xs) = (two_zeros a b ≡ true → 2 < x) × NoStartCode b x xs

-- Three bytes 00 00 00, 00 00 01 or 00 00 02 stand nowhere in the range.
abbrev pub IsEscaped : List ℕ → Type 0
IsEscaped (a ∷ b ∷ xs) = NoStartCode a b xs
IsEscaped _ = Unit {0}

-- An earlier byte that is not zero asks less.
NoStartCode-three : (b x : ℕ) (xs : List ℕ) → NoStartCode b x xs → NoStartCode 3 x xs
unfolding two_zeros
NoStartCode-three b x [] h = tt
NoStartCode-three b x (y ∷ ys) h = ((λ e. cc), h.1)

two_zeros_three : (b x : ℕ) → two_zeros b 3 ≡ true → 2 < x
unfolding two_zeros
two_zeros_three b x h = ground arith

stop_bit-NoStartCode : (a b : ℕ) → NoStartCode a b (0x80 ∷ [])
stop_bit-NoStartCode a b = ((λ e. omega arith), tt)

kept : (a b x : ℕ) → (two_zeros a b && leb x 3) ≡ false → two_zeros a b ≡ true → 2 < x
kept a b x h e = ground arith

escape_loop-NoStartCode :
    (tail : List ℕ)
    → ((a b : ℕ) → NoStartCode a b tail)
    → (a b : ℕ) (xs : List ℕ) → NoStartCode a b (escape_loop a b xs ++ tail)
unfolding escape_loop
escape_loop-NoStartCode tail ends a b [] = ends a b
escape_loop-NoStartCode tail ends a b (x ∷ xs) = elim (Bool-cases (two_zeros a b && leb x 3)) [
  | inl e ↦ rw e (
    (λ _. omega arith),
    (
      (λ z. two_zeros_three b x z),
      NoStartCode-three b x _ (escape_loop-NoStartCode tail ends b x xs),
    ),
  )
  | inr e ↦ rw e (kept a b x e, escape_loop-NoStartCode tail ends b x xs)
]

-- Whatever the payload, what copy_sodb_to_ebsp writes (stop bit included) holds no start code prefix.
pub copy_sodb_to_ebsp-IsEscaped : (xs : List ℕ) → IsEscaped (copy_sodb_to_ebsp xs)
unfolding copy_sodb_to_ebsp
copy_sodb_to_ebsp-IsEscaped [] = tt
copy_sodb_to_ebsp-IsEscaped (a ∷ []) = tt
copy_sodb_to_ebsp-IsEscaped (a ∷ b ∷ xs) =
    escape_loop-NoStartCode (0x80 ∷ []) stop_bit-NoStartCode a b xs
