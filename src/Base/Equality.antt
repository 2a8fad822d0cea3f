-- ===== src/Base/Equality.antt =====
-- Decidable equality as an interface: Python's `==` and SQL's `=` on the types that the program
-- compares.
use Prim.Native.Nat.{ℕ}
use Prim.Native.String.{String}
use mathlib.Core.Path.{◌≡◌, refl}
use mathlib.Core.Logic.{◌↔◌}
use mathlib.Core.Bool.{Bool, true, false, not, ◌&&◌}
use mathlib.Core.List.{List, [], ◌∷◌}
use native.Mathlib.Omega.{arith}
use text.Mathlib.Text.{◌==◌ as str_eq}
use text.Mathlib.TextEquality.{eq_iff}
use novo_chat.Base.Tests.{nat_beq, nat_beq_iff}

-- Two texts are compared by code points.
pub record Eq {ℓ} (A : Type ℓ) : Type ℓ where
  pub is_equal : A → A → Bool
  pub equal_iff : (x y : A) → (is_equal x y ≡ true) ↔ (x ≡ y)

instance abbrev pub string_eq : Eq String
string_eq = record { is_equal = str_eq; equal_iff = eq_iff }

instance abbrev pub nat_eq : Eq ℕ
nat_eq = record { is_equal = nat_beq; equal_iff = nat_beq_iff }

-- Python's `==` and `!=`.
infix 50 ◌!=◌ ◌==◌
abbrev pub ◌!=◌ {ℓ} : {A : Type ℓ} ⦃same : Eq A⦄ → A → A → Bool
◌!=◌ ⦃same⦄ x y = not (same.is_equal x y)

abbrev pub ◌==◌ {ℓ} : {A : Type ℓ} ⦃same : Eq A⦄ → A → A → Bool
◌==◌ ⦃same⦄ x y = same.is_equal x y

-- Equality of lists, element by element.
abbrev pub list_beq {ℓ} : {A : Type ℓ} ⦃e : Eq A⦄ → List A → List A → Bool
list_beq [] [] = true
list_beq [] (y ∷ ys) = false
list_beq (x ∷ xs) [] = false
list_beq (x ∷ xs) (y ∷ ys) = x == y && list_beq xs ys

pub list_beq_eq : {A : Type 0} ⦃e : Eq A⦄ (xs ys : List A) → list_beq xs ys ≡ true → xs ≡ ys
list_beq_eq [] [] h = refl
list_beq_eq [] (y ∷ ys) h = cc
list_beq_eq (x ∷ xs) [] h = cc
list_beq_eq ⦃e⦄ (x ∷ xs) (y ∷ ys) h = ground (arith, e.equal_iff x y, list_beq_eq xs ys)

pub list_beq_refl : {A : Type 0} ⦃e : Eq A⦄ (xs : List A) → list_beq xs xs ≡ true
list_beq_refl [] = refl
list_beq_refl ⦃e⦄ (x ∷ xs) = rw ((e.equal_iff x x).1 refl) (list_beq_refl xs)
