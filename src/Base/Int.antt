-- ===== src/Base/Int.antt =====
-- Signed integers over the native numbers: an integer is the difference of the number above zero and
-- the number below zero that it has, one of which is 0.
use Prim.Native.Nat.{ℕ, suc, ◌+◌, ◌-◌, ◌≤◌}
use mathlib.Core.Bool.{Bool}
use mathlib.Core.Path.{◌≡◌}
use native.Mathlib.Omega.{arith}
use metamix.Base.Tests.{leb, if◌then◌else◌}

-- negsuc n is the integer -1 - n.
pub data ℤ : Type 0 where
  pos : ℕ → ℤ
  negsuc : ℕ → ℤ

abbrev pub above : ℤ → ℕ
above (pos n) = n
above (negsuc n) = 0

abbrev pub below : ℤ → ℕ
below (pos n) = 0
below (negsuc n) = suc n

abbrev pub difference : ℕ → ℕ → ℤ
difference m n = if leb n m then pos (m - n) else negsuc (n - m - 1)

infixl 65 ◌+ℤ◌ ◌-ℤ◌
infix 50 ◌≤ℤ◌
unfoldable pub ◌+ℤ◌ : ℤ → ℤ → ℤ
x +ℤ y = difference (above x + above y) (below x + below y)

unfoldable pub ◌-ℤ◌ : ℤ → ℤ → ℤ
x -ℤ y = difference (above x + below y) (below x + above y)

abbrev pub ◌≤ℤ◌ : ℤ → ℤ → Type 0
x ≤ℤ y = above x + below y ≤ above y + below x

abbrev pub leb_ℤ : ℤ → ℤ → Bool
leb_ℤ x y = leb (above x + below y) (above y + below x)

-- Addition and subtraction on the two parts, for `omega`.
pub +ℤ-parts : (x y : ℤ) → above (x +ℤ y) + (below x + below y) ≡ above x + above y + below (x +ℤ y)
unfolding ◌+ℤ◌
+ℤ-parts x y = ground arith

pub -ℤ-parts : (x y : ℤ) → above (x -ℤ y) + (below x + above y) ≡ above x + below y + below (x -ℤ y)
unfolding ◌-ℤ◌
-ℤ-parts x y = ground arith

pub ≤ℤ_antisymm : (x y : ℤ) → x ≤ℤ y → y ≤ℤ x → x ≡ y
≤ℤ_antisymm (pos m) (pos n) h k = let e : m ≡ n = omega arith in cc
≤ℤ_antisymm (pos m) (negsuc n) h k = absurd (omega arith)
≤ℤ_antisymm (negsuc m) (pos n) h k = absurd (omega arith)
≤ℤ_antisymm (negsuc m) (negsuc n) h k = let e : m ≡ n = omega arith in cc
