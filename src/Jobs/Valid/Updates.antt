-- ===== src/Jobs/Valid/Updates.antt =====
-- novo_chat/jobs.py: the validity of the tables under the methods that update operations.
use novo_chat.Base.{
  String, ◌≡◌, refl, sym, ap, ◌∙◌, Bool, true, Option, none, some, List, [], ◌∷◌, arith, eq_iff,
  ◌==◌, string_eq, inl, inr, Bool-cases, any, All, contains, find_first, find_first-eq-some,
  some_inj, not-eq-false,
}
use novo_chat.Base.Result.{ok, raise_if-eq-ok, >>=-eq-ok, ok-injective}
use novo_chat.Protocol.Types.{state_eq}
use novo_chat.Jobs.{Library, SubmissionRow, OperationRow, Store}
use novo_chat.Jobs.Tables.{same_key, update_where, update_operation, fetch_one}
use novo_chat.Jobs.Tables.Keys.{
  Free, Free-update_where, same_id, same_id_comm, any-update_where, Once, Once-of_ids,
  update_where-none,
}
use novo_chat.Jobs.Tables.Statements.{update_operation-ok}
use novo_chat.Jobs.Submit.{find_operation}
use novo_chat.Jobs.Transition.{Change, transition, changed_row}
use novo_chat.Jobs.Valid.{IsValid, links, owns}

module _ (lib : Library) where
  -- The UPDATE keeps the id and the environment of each row that it picks.
  abbrev pub KeepsPlace : (OperationRow lib → Bool) → (OperationRow lib → OperationRow lib) → Type 0
  KeepsPlace p f =
      (o : OperationRow lib)
      → p o ≡ true
      → ((f o).operation_id ≡ o.operation_id) × ((f o).environment ≡ o.environment)

  All-linked :
      (p : OperationRow lib → Bool) (f : OperationRow lib → OperationRow lib)
      (rows : List (OperationRow lib)) (subs : List SubmissionRow)
      → KeepsPlace p f
      → All (λ s. any (links lib s) rows ≡ true) subs
      → All (λ s. any (links lib s) (update_where p f rows) ≡ true) subs
  All-linked p f rows [] k h = tt
  All-linked p f rows (s ∷ subs) k h = (
    any-update_where (links lib s) p f rows (λ o e. ground (arith, k o e)) ∙ h.0,
    All-linked p f rows subs k h.1,
  )

  All-owned :
      (p : OperationRow lib → Bool) (f : OperationRow lib → OperationRow lib)
      (rows : List (OperationRow lib)) (subs : List SubmissionRow)
      → KeepsPlace p f
      → All (λ o. any (owns lib o) subs ≡ true) rows
      → All (λ o. any (owns lib o) subs ≡ true) (update_where p f rows)
  All-owned p f [] subs k h = tt
  All-owned p f (o ∷ rows) subs k h = elim (Bool-cases (p o)) [
    | inl e ↦ rw e (rw (k o e).0 h.0, All-owned p f rows subs k h.1)
    | inr e ↦ rw e (h.0, All-owned p f rows subs k h.1)
  ]

  pub update-IsValid :
      (p : OperationRow lib → Bool) (f : OperationRow lib → OperationRow lib) (db : Store lib)
      → KeepsPlace p f
      → Free (same_key lib) (update_where p f db.operations)
      → IsValid lib db
      → IsValid lib (record db { operations = update_where p f db.operations })
  update-IsValid p f db k keys valid = record {
    ids =
        Free-update_where (same_id lib) (same_id_comm lib) p f db.operations
          (λ x y e. ap (λ t. t == x.operation_id) (k y e).0) valid.ids;
    keys = keys;
    handles = valid.handles;
    linked = All-linked p f db.operations db.submissions k valid.linked;
    slots = valid.slots;
    owned = All-owned p f db.operations db.submissions k valid.owned;
  }

  -- The one row that is found is the one that an UPDATE by the same test writes.
  pub update_found :
      {A : Type 0} (here : A → Bool) (f : A → A) (xs : List A) {x : A}
      → Once here xs
      → find_first here xs ≡ some x
      → update_where here (λ _. f x) xs ≡ update_where here f xs
  update_found here f [] once h = refl
  update_found here f (y ∷ xs) {x} once h = elim (Bool-cases (here y)) [
    | inl e ↦
        let same : y ≡ x = some_inj (rw e at h) in
        rw (
          e,
          same,
          update_where-none here (λ _. f x) xs (once.0 e),
          update_where-none here f xs (once.0 e),
        )
    | inr e ↦ rw e (ap (λ t. y ∷ t) (update_found here f xs once.1 (rw e at h)))
  ]

  fetch_one-eq-ok :
      {A E : Type 0} (e : E) (m : Option A) {a : A} → fetch_one e m ≡ ok a → m ≡ some a
  fetch_one-eq-ok e none h = cc
  fetch_one-eq-ok e (some b) h = cc

  -- What a transition that returned has done.
  pub transition-ok :
      (id : String) (c : Change lib) (db : Store lib) {db' : Store lib}
      → transition lib id c db ≡ ok db'
      → (o : OperationRow lib) × (find_operation lib id db.operations ≡ some o)
        × (contains c.allowed_from o.state ≡ true)
        × (rows : List (OperationRow lib)) × (update_operation lib
              (changed_row lib c o)
              db.operations
            ≡ ok rows)
        × (db' ≡ record db { operations = rows })
  unfolding transition
  transition-ok id c db h =
      let (_, h1) = raise_if-eq-ok _ _ _ h in
      let (o, found, h2) = >>=-eq-ok _ _ h1 in
      let (allowed, h3) = raise_if-eq-ok _ _ _ h2 in
      let (rows, updated, h4) = >>=-eq-ok _ _ h3 in
      (o, fetch_one-eq-ok _ _ found, not-eq-false _ allowed, rows, updated, sym (ok-injective h4))

  -- A transition that returns keeps the tables valid.
  pub transition-IsValid :
      (id : String) (c : Change lib) (db : Store lib) {db' : Store lib}
      → transition lib id c db ≡ ok db'
      → IsValid lib db
      → IsValid lib db'
  unfolding find_operation
  transition-IsValid id c db h valid =
      let (o, found, allowed, rows, updated, same) = transition-ok id c db h in
      let here : o.operation_id ≡ id = (eq_iff _ _).0 (find_first-eq-some _ db.operations found) in
      let (rows_eq, keys) =
        update_operation-ok lib (changed_row lib c o) db.operations updated valid.ids valid.keys in
      let once = Once-of_ids lib o.operation_id db.operations valid.ids in
      let rewritten =
        update_found (λ r. r.operation_id == o.operation_id) (changed_row lib c) db.operations once
          (rw (← here) at found) in
      let rows_as = rows_eq ∙ rewritten in
      rw (same, rows_as)
        (update-IsValid (λ r. r.operation_id == o.operation_id) (changed_row lib c) db
          (λ r e. (refl, refl)) (rw rows_as at keys) valid)
