-- ===== src/Jobs/Tables/Keys.antt =====
-- novo_chat/jobs.py: how the statements keep the primary key and the UNIQUE constraint of
-- `operations`.
use novo_chat.Base.{
  String, ◌≡◌, refl, ◌∙◌, Bool, true, false, not, ◌&&◌, ◌||◌, List, [], ◌∷◌, ◌++◌, arith, eq_iff,
  ◌==◌, string_eq, inl, inr, Bool-cases, any, keep_if,
}
use mathlib.Core.Path.{subst}
use novo_chat.Protocol.Types.{operation_eq}
use novo_chat.Jobs.{Library, OperationRow}
use novo_chat.Jobs.Tables.{same_key, update_where}

pub ==_comm : (s t : String) → (s == t) ≡ (t == s)
==_comm s t = ground (arith, eq_iff s t, eq_iff t s)

module _ {A : Type 0} where
  pub any-append : (q : A → Bool) (xs ys : List A) → any q (xs ++ ys) ≡ (any q xs || any q ys)
  any-append q [] ys = refl
  any-append q (x ∷ xs) ys = ground (arith, any-append q xs ys)

  pub any-keep_if : (q p : A → Bool) (xs : List A) → any q xs ≡ false → any q (keep_if p xs) ≡ false
  any-keep_if q p [] h = refl
  any-keep_if q p (x ∷ xs) h = ground (arith, any-keep_if q p xs)

  pub any-update_where :
      (q p : A → Bool) (f : A → A) (xs : List A)
      → ((x : A) → p x ≡ true → q (f x) ≡ q x)
      → any q (update_where p f xs) ≡ any q xs
  any-update_where q p f [] h = refl
  any-update_where q p f (x ∷ xs) h = ground (arith, h x, any-update_where q p f xs h)

  pub update_where-none :
      (p : A → Bool) (f : A → A) (xs : List A) → any p xs ≡ false → update_where p f xs ≡ xs
  update_where-none p f [] h = refl
  update_where-none p f (x ∷ xs) h = ground (arith, update_where-none p f xs)

  pub any-update_const :
      (q p : A → Bool) (r : A) (xs : List A)
      → any q xs ≡ false
      → q r ≡ false
      → any q (update_where p (λ _. r) xs) ≡ false
  any-update_const q p r [] h k = refl
  any-update_const q p r (x ∷ xs) h k = ground (arith, any-update_const q p r xs)

-- At most one row passes the test.
abbrev pub Once : {A : Type 0} → (A → Bool) → List A → Type 0
Once here [] = Unit
Once here (x ∷ xs) = (here x ≡ true → any here xs ≡ false) × Once here xs

-- Rows that a symmetric test keeps apart, pairwise: a primary key or a UNIQUE constraint.
module _ {A : Type 0} (same : A → A → Bool) where
  abbrev pub Free : List A → Type 0
  Free [] = Unit
  Free (x ∷ xs) = (any (same x) xs ≡ false) × Free xs

  pub Free-keep_if : (p : A → Bool) (xs : List A) → Free xs → Free (keep_if p xs)
  Free-keep_if p [] h = tt
  Free-keep_if p (x ∷ xs) h = ground (arith, any-keep_if (same x) p xs, Free-keep_if p xs h.1)

module _ {A : Type 0} where
  any-ext : (q q' : A → Bool) (xs : List A) → ((x : A) → q x ≡ q' x) → any q xs ≡ any q' xs
  any-ext q q' [] h = refl
  any-ext q q' (x ∷ xs) h = ground (arith, h x, any-ext q q' xs h)

module _ {A : Type 0} (same : A → A → Bool) (comm : (a b : A) → same a b ≡ same b a) where
  pub Free-concat :
      (xs : List A) (r : A) → Free same xs → any (same r) xs ≡ false → Free same (xs ++ r ∷ [])
  Free-concat [] r h k = (refl, tt)
  Free-concat (x ∷ xs) r h k =
      ground (arith, comm r x, any-append (same x) xs (r ∷ []), Free-concat xs r h.1)

  -- An UPDATE that does not touch what `same` reads.
  pub Free-update_where :
      (p : A → Bool) (f : A → A) (xs : List A)
      → ((x y : A) → p y ≡ true → same x (f y) ≡ same x y)
      → Free same xs
      → Free same (update_where p f xs)
  Free-update_where p f [] k h = tt
  Free-update_where p f (x ∷ xs) k h = elim (Bool-cases (p x)) [
    | inl e ↦ ground (
      arith,
      any-update_where (same (f x)) p f xs (k (f x)),
      any-ext (same (f x)) (same x) xs (λ y. comm (f x) y ∙ k y x e ∙ comm y x),
      Free-update_where p f xs k h.1,
    )
    | inr e ↦ ground (arith, any-update_where (same x) p f xs (k x), Free-update_where p f xs k h.1)
  ]

  -- A row in the middle is replaced by one that agrees with no other.
  pub Free-replace :
      (done : List A) (x r : A) (rest : List A)
      → Free same (done ++ x ∷ rest)
      → any (same r) done ≡ false
      → any (same r) rest ≡ false
      → Free same (done ++ r ∷ rest)
  Free-replace [] x r rest h kd kr = (kr, h.1)
  Free-replace (y ∷ done) x r rest h kd kr = ground (
    arith,
    comm r y,
    any-append (same y) done (x ∷ rest),
    any-append (same y) done (r ∷ rest),
    Free-replace done x r rest h.1,
  )

  module _ (here : A → Bool) (r : A) where
    others_differ :
        (xs : List A)
        → any here xs ≡ false
        → any (λ x. not (here x) && same x r) xs ≡ false
        → any (same r) xs ≡ false
    others_differ [] h k = refl
    others_differ (x ∷ xs) h k = ground (arith, comm r x, others_differ xs)

    -- The one row that `here` picks is replaced by `r`.
    pub Free-update :
        (xs : List A)
        → Once here xs
        → Free same xs
        → any (λ x. not (here x) && same x r) xs ≡ false
        → Free same (update_where here (λ _. r) xs)
    Free-update [] once free h = tt
    Free-update (x ∷ xs) once free h = elim (Bool-cases (here x)) [
      | inl e ↦ ground (
        arith,
        once.0 e,
        update_where-none here (λ _. r) xs (once.0 e),
        others_differ xs (once.0 e),
      )
      | inr e ↦
          ground
            (arith, comm x r, any-update_const (same x) here r xs, Free-update xs once.1 free.1)
    ]

-- The constraints of `operations`.
module _ (lib : Library) where
  abbrev pub same_id : OperationRow lib → OperationRow lib → Bool
  same_id a b = b.operation_id == a.operation_id

  pub same_id_comm : (a b : OperationRow lib) → same_id a b ≡ same_id b a
  same_id_comm a b = ==_comm b.operation_id a.operation_id

  pub same_key_comm : (a b : OperationRow lib) → same_key lib a b ≡ same_key lib b a
  unfolding same_key
  same_key_comm a b =
      ground (arith, ==_comm a.environment b.environment, ==_comm a.dedupe_key b.dedupe_key)

  pub Once-of_ids :
      (id : String) (rows : List (OperationRow lib))
      → Free same_id rows
      → Once (λ o. o.operation_id == id) rows
  Once-of_ids id [] h = tt
  Once-of_ids id (o ∷ rows) h = (
    λ e. subst (λ t. any (λ b. b.operation_id == t) rows ≡ false) ((eq_iff _ _).0 e) h.0,
    Once-of_ids id rows h.1,
  )
