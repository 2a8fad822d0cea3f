-- ===== src/Base/Result.antt =====
-- A computation that may raise: the value, or the exception.
use mathlib.Core.Path.{◌≡◌, refl}
use mathlib.Core.Bool.{Bool, true, false}
use mathlib.Core.Logic.{◌⊎◌, inl, inr}
use novo_chat.Base.Tests.{if◌then◌else◌}

pub data Result {ℓ} (E : Type ℓ) (A : Type ℓ) : Type ℓ where
  err : E → Result E A
  ok : A → Result E A

module _ {E : Type 0} where
  -- `if b: raise e`
  abbrev pub raise_if : Bool → E → Result E (Unit {0})
  raise_if b e = if b then err e else ok tt

  infixl 5 ◌>>=◌ ◌>>◌
  abbrev pub ◌>>=◌ : {A B : Type 0} → Result E A → (A → Result E B) → Result E B
  err raised >>= next = err raised
  ok value >>= next = next value

  -- A statement whose value is not used.
  abbrev pub ◌>>◌ : {B : Type 0} → Result E (Unit {0}) → Result E B → Result E B
  first >> second = first >>= λ done. second

raised-ne-ok : {E A : Type 0} {e : E} {a : A} → ◌≡◌ {A = Result E A} (err e) (ok a) → ⊥
raised-ne-ok h = cc

-- Inversion of a computation that returned.
module _ {E A : Type 0} where
  pub ok-injective : {a b : A} → ◌≡◌ {A = Result E A} (ok a) (ok b) → a ≡ b
  ok-injective h = cc

  pub err-ne-ok : {e : E} {a : A} → err e ≡ ok a → ⊥
  err-ne-ok h = cc

  pub if-eq-ok :
      (b : Bool) (e : E) (m : Result E A) {a : A}
      → (if b then err e else m) ≡ ok a
      → (b ≡ false) × (m ≡ ok a)
  if-eq-ok true e m h = cc
  if-eq-ok false e m h = (refl, h)

  pub raise_if-eq-ok :
      (b : Bool) (e : E) (m : Result E A) {a : A}
      → (raise_if b e >> m) ≡ ok a
      → (b ≡ false) × (m ≡ ok a)
  raise_if-eq-ok true e m h = cc
  raise_if-eq-ok false e m h = (refl, h)

  pub >>=-eq-ok :
      {B : Type 0} (first : Result E A) (next : A → Result E B) {last : B}
      → (first >>= next) ≡ ok last
      → (value : A) × (first ≡ ok value) × (next value ≡ ok last)
  >>=-eq-ok (err raised) next h = absurd (raised-ne-ok h)
  >>=-eq-ok (ok value) next h = (value, refl, h)

  pub Result-cases : (r : Result E A) → ((a : A) × (r ≡ ok a)) ⊎ ((e : E) × (r ≡ err e))
  Result-cases (ok a) = inl (a, refl)
  Result-cases (err e) = inr (e, refl)
