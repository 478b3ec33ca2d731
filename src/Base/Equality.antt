-- ===== src/Base/Equality.antt =====
-- `===` on the values that the program compares, as an interface with instances, and the list
-- functions of JavaScript and lodash that use it.
use Prim.Native.Nat.{ℕ}
use Prim.Native.String.{String}
use mathlib.Core.Path.{◌≡◌, refl}
use mathlib.Core.Logic.{◌↔◌, ◌≢◌}
use mathlib.Core.Bool.{Bool, true, false, ◌||◌}
use mathlib.Core.List.{List, [], ◌∷◌, ◌++◌}
use native.Mathlib.Omega.{arith}
use text.Mathlib.Text.{◌==◌ as str_eq}
use text.Mathlib.TextEquality.{eq_iff}
use inventaire.Base.Tests.{nat_beq, nat_beq_iff, if◌then◌else◌}

-- A type whose values `===` compares.
pub record HasEq {ℓ} (A : Type ℓ) : Type ℓ where
  pub same : A → A → Bool
  pub same_iff : (a b : A) → (same a b ≡ true) ↔ (a ≡ b)

instance abbrev pub string_eq : HasEq String
string_eq = record { same_iff = eq_iff; same = str_eq }

infix 50 ◌==◌
abbrev pub ◌==◌ {ℓ} : {A : Type ℓ} ⦃q : HasEq A⦄ → A → A → Bool
◌==◌ ⦃q⦄ x y = q.same x y

module _ {ℓ} {A : Type ℓ} ⦃q : HasEq A⦄ where
  pub beq_refl : (a : A) → (a == a) ≡ true
  beq_refl a = (q.same_iff a a).1 refl

  pub eq_of_beq : (a b : A) → (a == b) ≡ true → a ≡ b
  eq_of_beq a b h = (q.same_iff a b).0 h

  pub beq_of_ne : (a b : A) → a ≢ b → (a == b) ≡ false
  beq_of_ne a b h = ground (arith, q.same_iff a b)

  -- Array.prototype.includes
  unfoldable pub includes : List A → A → Bool
  includes [] a = false
  includes (x ∷ xs) a = x == a || includes xs a

  -- _.without(array, value), for one value
  unfoldable pub without : List A → A → List A
  without [] a = []
  without (x ∷ xs) a = let rest = without xs a in if x == a then rest else x ∷ rest

  pub includes-append :
      (xs ys : List A) (a : A) → includes (xs ++ ys) a ≡ (includes xs a || includes ys a)
  unfolding includes
  includes-append [] ys a = refl
  includes-append (x ∷ xs) ys a = ground (arith, includes-append xs ys a)

  pub includes-without_self : (xs : List A) (a : A) → includes (without xs a) a ≡ false
  unfolding includes without
  includes-without_self [] a = refl
  includes-without_self (x ∷ xs) a = ground (arith, includes-without_self xs a)

  pub includes-without_ne :
      (xs : List A) (a b : A) → a ≢ b → includes (without xs a) b ≡ includes xs b
  unfolding includes without
  includes-without_ne [] a b h = refl
  includes-without_ne (x ∷ xs) a b h =
      ground (arith, includes-without_ne xs a b h, q.same_iff x a, q.same_iff x b)

-- Of numbers.
instance abbrev pub nat_eq : HasEq ℕ
nat_eq = record { same_iff = nat_beq_iff; same = nat_beq }
