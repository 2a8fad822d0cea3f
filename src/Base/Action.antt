-- ===== src/Base/Action.antt =====
-- A computation that reads and changes a state and may raise: the state is kept when it raises.
use mathlib.Core.Path.{◌≡◌, refl}
use mathlib.Core.Bool.{Bool, true, false}
use novo_chat.Base.Tests.{if◌then◌else◌}
use novo_chat.Base.Result.{Result, ok, err}

abbrev pub Action : Type 0 → Type 0 → Type 0 → Type 0
Action S E A = S → Result E A × S

module _ {S E : Type 0} where
  abbrev pub return : {A : Type 0} → A → Action S E A
  return a s = (ok a, s)

  abbrev pub throw : {A : Type 0} → E → Action S E A
  throw e s = (err e, s)

  -- What follows an outcome.
  abbrev pub continue : {A B : Type 0} → Result E A × S → (A → Action S E B) → Result E B × S
  continue (err e, s) next = (err e, s)
  continue (ok a, s) next = next a s

  infixl 5 ◌>>=◌ ◌>>◌
  abbrev pub ◌>>=◌ : {A B : Type 0} → Action S E A → (A → Action S E B) → Action S E B
  m >>= next = λ s. continue (m s) next

  abbrev pub ◌>>◌ : {B : Type 0} → Action S E (Unit {0}) → Action S E B → Action S E B
  m >> next = m >>= λ _. next

-- What holds of a value and a state, where the outcome is not an exception.
module _ {S E : Type 0} where
  abbrev pub Post : {A : Type 0} → (A → S → Type 0) → Result E A × S → Type 0
  Post Q (err e, s) = Unit
  Post Q (ok a, s) = Q a s

  pub Post-continue :
      {A B : Type 0} (Q : A → S → Type 0) (R : B → S → Type 0) (out : Result E A × S)
      (next : A → Action S E B)
      → Post Q out
      → ((a : A) (s : S) → Q a s → Post R (next a s))
      → Post R (continue out next)
  Post-continue Q R (err e, s) next h k = tt
  Post-continue Q R (ok a, s) next h k = k a s h

  pub Post-mono :
      {A : Type 0} (Q R : A → S → Type 0) (out : Result E A × S)
      → ((a : A) (s : S) → Q a s → R a s)
      → Post Q out
      → Post R out
  Post-mono Q R (err e, s) k h = tt
  Post-mono Q R (ok a, s) k h = k a s h

  -- Whichever branch of a test is taken.
  pub Post-if :
      {A : Type 0} (R : A → S → Type 0) (b : Bool) (m n : Action S E A) (s : S)
      → (b ≡ true → Post R (m s))
      → (b ≡ false → Post R (n s))
      → Post R ((if b then m else n) s)
  Post-if R true m n s h k = h refl
  Post-if R false m n s h k = k refl
