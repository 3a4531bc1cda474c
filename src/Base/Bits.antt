-- ===== src/Base/Bits.antt =====
-- Bit operations. Shifts and masks of consecutive bits are written by `/` and `%`, which the
-- arithmetic tactics read; `|` and `^` on overlapping fields are the native `bit_or`, `bit_xor`.
use Prim.Native.Nat.{
  ℕ, zero, suc, ◌/◌, ◌%◌, ◌^◌, ◌≤◌, ◌<◌, bit_or, bit_xor, digits, bit_xor-bitwise, differ,
}
use mathlib.Core.Path.{◌≡◌, refl, ◌∙◌}
use mathlib.Core.Bool.{Bool, true, ◌&&◌}
use mathlib.Core.Logic.{inl, inr}
use native.Mathlib.Omega.{arith}
use metamix.Base.Tests.{◌==◌, ==_iff, Bool-cases, if◌then◌else◌}

-- x >> k
abbrev pub shr : ℕ → ℕ → ℕ
shr x k = x / 2 ^ k

-- x & (2 ^ k - 1), and so the conversion to a k-bit unsigned type
abbrev pub low_bits : ℕ → ℕ → ℕ
low_bits x k = x % 2 ^ k

-- static_cast<uint8_t>(x >> k)
abbrev pub byte_at : ℕ → ℕ → ℕ
byte_at x k = x / 2 ^ k % 256

-- (x & (1 << k)) != 0
abbrev pub bit_at : ℕ → ℕ → Bool
bit_at x k = x / 2 ^ k % 2 == 1

-- A bool as an integer.
abbrev pub flag : Bool → ℕ
flag b = if b then 1 else 0

abbrev pub IsByte : ℕ → Type 0
IsByte b = b < 256

-- Whether two functions agree on the numbers below a bound, tried one by one from the largest.
unfoldable pub agreeing : (ℕ → ℕ) → (ℕ → ℕ) → ℕ → Bool
agreeing f g zero = true
agreeing f g (suc bound) = let below = agreeing f g bound in (f bound == g bound) && below

-- What was tried for a bound holds below it.
pub agree_below :
    (f g : ℕ → ℕ) (bound : ℕ) → agreeing f g bound ≡ true → (k : ℕ) → k < bound → f k ≡ g k
unfolding agreeing
agree_below f g zero tried k below = absurd (omega arith)
agree_below f g (suc bound) tried k below = elim (Bool-cases (k == bound)) [
  | inl last ↦
      let same : k ≡ bound = (==_iff k bound).0 last in
      rw same ((==_iff (f bound) (g bound)).0 (ground arith))
  | inr before ↦ agree_below f g bound (ground arith) k (ground arith)
]

pub xor_self : (b : ℕ) → b < 256 → bit_xor b b ≡ 0
unfolding agreeing
xor_self = agree_below (λ b. bit_xor b b) (λ b. 0) 256 refl

pub or_zero : (b : ℕ) → b < 256 → bit_or b 0 ≡ b
unfolding agreeing
or_zero = agree_below (λ b. bit_or b 0) (λ b. b) 256 refl

-- Exclusive or with nothing, at every width, from the digits.
differ_bit : (a : ℕ) → differ (a % 2) 0 ≡ a % 2
differ_bit a = elim (Bool-cases (a % 2 == 0)) [
  | inl e ↦ rw ((==_iff (a % 2) 0).0 e)
  | inr e ↦ let h : a % 2 ≡ 1 = ground arith in rw h
]

xor_digits : (n a : ℕ) → a ≤ n → digits (λ b. b) differ n a 0 ≡ a
xor_digits zero zero h = refl
xor_digits zero (suc a) h = absurd (omega arith)
xor_digits (suc n) zero h = refl
xor_digits (suc n) (suc a) h =
    omega (arith, differ_bit (suc a), xor_digits n (suc a / 2) (omega arith))

pub xor_zero : (a : ℕ) → bit_xor a 0 ≡ a
xor_zero a = bit_xor-bitwise a 0 ∙ xor_digits a a (omega arith)
