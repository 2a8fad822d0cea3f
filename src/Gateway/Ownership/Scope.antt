-- ===== src/Gateway/Ownership/Scope.antt =====
-- novo_chat/gateway/store.py: `_normalized_scope`. The order of Python's texts is a parameter.
use novo_chat.Base.{
  String, ◌≡◌, refl, inl, inr, Bool, true, false, Bool-cases, List, [], ◌∷◌, distinct, map,
  string_eq, if◌then◌else◌,
}
use novo_chat.Base.Result.{Result, ok, err, ok-injective, err-ne-ok}
use novo_chat.Protocol.Types.{NotebookScope}

-- `a <= b` on Python's texts, and `a < b` on SQLite's. Of the first, that it is total.
pub record TextOrder : Type 0 where
  pub leb_text : String → String → Bool
  pub before : String → String → Bool
  pub total : (a b : String) → leb_text a b ≡ false → leb_text b a ≡ true

pub data OwnershipError : Type 0 where
  duplicate_notebook ownership_collision : OwnershipError

module _ (order : TextOrder) where
  open order use {leb_text}

  -- `sorted(..., key=...)`, which is stable
  abbrev pub insert_item : NotebookScope → List NotebookScope → List NotebookScope
  insert_item x [] = x ∷ []
  insert_item x (y ∷ ys) =
      let rest = insert_item x ys in
      if leb_text x.notebook_id y.notebook_id then x ∷ y ∷ ys else y ∷ rest

  unfoldable pub sort_scope : List NotebookScope → List NotebookScope
  sort_scope [] = []
  sort_scope (x ∷ xs) = insert_item x (sort_scope xs)

  unfoldable pub normalized_scope : List NotebookScope → Result OwnershipError (List NotebookScope)
  unfolding sort_scope
  normalized_scope scope =
      let normalized = sort_scope scope in
      if distinct (map (λ item. item.notebook_id) normalized)
      then ok normalized
      else err duplicate_notebook

  -- Each item is at most the next one.
  abbrev Ascending : List NotebookScope → Type 0
  Ascending [] = Unit
  Ascending (x ∷ []) = Unit
  Ascending (x ∷ y ∷ ys) = (leb_text x.notebook_id y.notebook_id ≡ true) × Ascending (y ∷ ys)

  insert_item-Ascending :
      (x : NotebookScope) (ys : List NotebookScope) → Ascending ys → Ascending (insert_item x ys)
  insert_item-Ascending x [] h = tt
  insert_item-Ascending x (y ∷ []) h = elim (Bool-cases (leb_text x.notebook_id y.notebook_id)) [
    | inl e ↦ rw e (e, tt)
    | inr e ↦ rw e (order.total x.notebook_id y.notebook_id e, tt)
  ]
  insert_item-Ascending x (y ∷ z ∷ zs) h =
      elim (Bool-cases (leb_text x.notebook_id y.notebook_id)) [
        | inl e ↦ rw e (e, h)
        | inr e ↦
            let later = insert_item-Ascending x (z ∷ zs) h.1 in
            elim (Bool-cases (leb_text x.notebook_id z.notebook_id)) [
              | inl f ↦ rw (e, f) (order.total x.notebook_id y.notebook_id e, rw f at later)
              | inr f ↦ rw (e, f) (h.0, rw f at later)
            ]
      ]

  sort_scope-Ascending : (xs : List NotebookScope) → Ascending (sort_scope xs)
  unfolding sort_scope
  sort_scope-Ascending [] = tt
  sort_scope-Ascending (x ∷ xs) = insert_item-Ascending x (sort_scope xs) (sort_scope-Ascending xs)

  sort_scope_sorted : (xs : List NotebookScope) → Ascending xs → sort_scope xs ≡ xs
  unfolding sort_scope
  sort_scope_sorted [] h = refl
  sort_scope_sorted (x ∷ []) h = refl
  sort_scope_sorted (x ∷ y ∷ ys) h = rw (sort_scope_sorted (y ∷ ys) h.1, h.0) refl

  -- A scope that was normalized is normalized to itself.
  pub normalized_scope-again :
      (xs : List NotebookScope) {scope : List NotebookScope}
      → normalized_scope xs ≡ ok scope
      → normalized_scope scope ≡ ok scope
  unfolding normalized_scope
  normalized_scope-again xs {scope} h =
      elim (Bool-cases (distinct (map (λ item. item.notebook_id) (sort_scope xs)))) [
        | inr e ↦ absurd (err-ne-ok (rw (normalized_scope, e) at h))
        | inl e ↦
            let sorted = ok-injective (rw (normalized_scope, e) at h) in
            let fixed = sort_scope_sorted (sort_scope xs) (sort_scope-Ascending xs) in
            rw (← sorted, normalized_scope, fixed, e) refl
      ]
