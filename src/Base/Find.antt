-- ===== src/Base/Find.antt =====
-- Searches in lists.
use mathlib.Core.Path.{◌≡◌, refl}
use mathlib.Core.Logic.{inl, inr}
use mathlib.Core.Bool.{Bool, true, false, not}
use mathlib.Core.Option.{none, some}
use mathlib.Core.List.{List, [], ◌∷◌, ◌++◌}
use native.Mathlib.Omega.{arith}
use novo_chat.Base.Tests.{Bool-cases}
use novo_chat.Base.Lists.{find_first, any}

pub not-eq-true : (b : Bool) → not b ≡ true → b ≡ false
not-eq-true b h = ground arith

pub not-eq-false : (b : Bool) → not b ≡ false → b ≡ true
not-eq-false b h = ground arith

module _ {A : Type 0} where
  pub some_inj : {a b : A} → some a ≡ some b → a ≡ b
  some_inj h = cc

  pub find_first-eq-some :
      (p : A → Bool) (xs : List A) {x : A} → find_first p xs ≡ some x → p x ≡ true
  find_first-eq-some p [] h = cc
  find_first-eq-some p (y ∷ xs) h = elim (Bool-cases (p y)) [
    | inl e ↦ rw (← some_inj (rw e at h)) e
    | inr e ↦ find_first-eq-some p xs (rw e at h)
  ]

  pub find_first-none : (p : A → Bool) (xs : List A) → find_first p xs ≡ none → any p xs ≡ false
  find_first-none p [] h = refl
  find_first-none p (y ∷ xs) h = ground (arith, find_first-none p xs)

  pub find_first-any :
      (p : A → Bool) (xs : List A) → any p xs ≡ true → (x : A) × (find_first p xs ≡ some x)
  find_first-any p [] h = cc
  find_first-any p (y ∷ xs) h = elim (Bool-cases (p y)) [
    | inl e ↦ (y, rw e)
    | inr e ↦ rw e (find_first-any p xs (rw e at h))
  ]

  pub any-find_first :
      (p : A → Bool) (xs : List A) {x : A} → find_first p xs ≡ some x → any p xs ≡ true
  any-find_first p [] h = cc
  any-find_first p (y ∷ xs) {x} h = ground (arith, any-find_first p xs {x = x})

  pub any-found :
      (p q : A → Bool) (xs : List A) {x : A}
      → find_first p xs ≡ some x
      → q x ≡ true
      → any q xs ≡ true
  any-found p q [] h k = cc
  any-found p q (y ∷ xs) {x} h k = elim (Bool-cases (p y)) [
    | inl e ↦ rw (some_inj (rw e at h), k)
    | inr e ↦ ground (arith, any-found p q xs {x = x} (rw e at h) k)
  ]

  pub find_first-append :
      (p : A → Bool) (xs ys : List A)
      → find_first p xs ≡ none
      → find_first p (xs ++ ys) ≡ find_first p ys
  find_first-append p [] ys h = refl
  find_first-append p (x ∷ xs) ys h = ground (arith, find_first-append p xs ys)

  pub find_first-append_some :
      (p : A → Bool) (xs ys : List A) {x : A}
      → find_first p xs ≡ some x
      → find_first p (xs ++ ys) ≡ some x
  find_first-append_some p [] ys h = cc
  find_first-append_some p (y ∷ xs) ys h = elim (Bool-cases (p y)) [
    | inl e ↦ rw e (rw e at h)
    | inr e ↦ rw e (find_first-append_some p xs ys (rw e at h))
  ]
