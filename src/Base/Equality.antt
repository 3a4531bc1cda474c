-- ===== src/Base/Equality.antt =====
-- The operators == of C++'s types, with what they decide: those of numbers, of bool, of std::optional
-- and of std::vector, which compare what they hold.
use native.Mathlib.Omega.{arith}
use metamix.Base.Tests.{◌==◌, ==_iff}
use Prim.Native.Nat.{ℕ}
use mathlib.Core.Path.{◌≡◌, refl}
use mathlib.Core.Logic.{◌↔◌}
use mathlib.Core.Bool.{Bool, true, false, ◌&&◌}
use mathlib.Core.Option.{Option, none, some}
use mathlib.Core.List.{List, [], ◌∷◌}

pub record Comparable {ℓ} (A : Type ℓ) : Type ℓ where
  pub test : A → A → Bool
  pub decides : (a b : A) → (test a b ≡ true) ↔ (a ≡ b)

abbrev pub equals {ℓ} : {A : Type ℓ} ⦃e : Comparable A⦄ → A → A → Bool
equals ⦃e⦄ = e.test

pub equals_iff {ℓ} : {A : Type ℓ} ⦃e : Comparable A⦄ (a b : A) → (equals a b ≡ true) ↔ (a ≡ b)
equals_iff ⦃e⦄ = e.decides

instance abbrev pub number_eq : Comparable ℕ
number_eq = record { test = ◌==◌; decides = ==_iff }

abbrev pub bool_equal : Bool → Bool → Bool
bool_equal true b = b
bool_equal false true = false
bool_equal false false = true

pub bool_equal_iff : (a b : Bool) → (bool_equal a b ≡ true) ↔ (a ≡ b)
bool_equal_iff true true = ((λ h. refl), λ h. refl)
bool_equal_iff true false = (cc, cc)
bool_equal_iff false true = (cc, cc)
bool_equal_iff false false = ((λ h. refl), λ h. refl)

instance abbrev pub bool_eq : Comparable Bool
bool_eq = record { test = bool_equal; decides = bool_equal_iff }

-- Two tests decide together what each decides.
infixl 35 ◌&&↔◌
pub ◌&&↔◌ {ℓ ℓ'} :
    {P : Type ℓ} {Q : Type ℓ'} {p q : Bool}
    → ((p ≡ true) ↔ P)
    → ((q ≡ true) ↔ Q)
    → ((p && q) ≡ true) ↔ (P × Q)
◌&&↔◌ {p = true} {q = true} f g = ((λ h. (f.0 refl, g.0 refl)), λ h. refl)
◌&&↔◌ {p = true} {q = false} f g = ((λ h. cc), λ h. g.1 h.1)
◌&&↔◌ {p = false} f g = ((λ h. cc), λ h. f.1 h.0)

module _ {ℓ} {A : Type ℓ} ⦃e : Comparable A⦄ where
  abbrev pub option_equal : Option A → Option A → Bool
  option_equal none none = true
  option_equal none (some b) = false
  option_equal (some a) none = false
  option_equal (some a) (some b) = e.test a b

  pub option_equal_iff : (a b : Option A) → (option_equal a b ≡ true) ↔ (a ≡ b)
  option_equal_iff none none = ((λ h. refl), λ h. refl)
  option_equal_iff none (some b) = (cc, cc)
  option_equal_iff (some a) none = (cc, cc)
  option_equal_iff (some a) (some b) = ground (arith, e.decides a b)

  abbrev pub list_equal : List A → List A → Bool
  list_equal [] [] = true
  list_equal [] (b ∷ right) = false
  list_equal (a ∷ left) [] = false
  list_equal (a ∷ left) (b ∷ right) = e.test a b && list_equal left right

  pub list_equal_iff : (left right : List A) → (list_equal left right ≡ true) ↔ (left ≡ right)
  list_equal_iff [] [] = ((λ h. refl), λ h. refl)
  list_equal_iff [] (b ∷ right) = (cc, cc)
  list_equal_iff (a ∷ left) [] = (cc, cc)
  list_equal_iff (a ∷ left) (b ∷ right) = ground (arith, e.decides a b, list_equal_iff left right)

instance abbrev pub option_eq {ℓ} : {A : Type ℓ} ⦃e : Comparable A⦄ → Comparable (Option A)
option_eq = record { test = option_equal; decides = option_equal_iff }

instance abbrev pub list_eq {ℓ} : {A : Type ℓ} ⦃e : Comparable A⦄ → Comparable (List A)
list_eq = record { test = list_equal; decides = list_equal_iff }
