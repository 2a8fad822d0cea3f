-- ===== src/Executor/Settle/Claimed.antt =====
-- novo_chat/executor.py: the tables between the claim of an operation and its end.
use novo_chat.Base.{
  String, ◌≡◌, refl, ap, ◌∙◌, Bool, true, false, ◌&&◌, some, List, [], ◌∷◌, arith, ◌==◌, ◌!=◌,
  string_eq, inl, inr, Bool-cases, any, any-found, find_first, find_first-eq-some, some_inj,
}
use text.Mathlib.TextPositions.{eq_refl}
use novo_chat.Base.Result.{ok}
use novo_chat.Protocol.Types.{queued, state_eq, operation_eq}
use novo_chat.Jobs.{Library, OperationRow, Store}
use novo_chat.Jobs.Tables.{is_terminal, progress_ok, same_key, update_where}
use novo_chat.Jobs.Tables.Keys.{Once, Once-of_ids}
use novo_chat.Jobs.Submit.{find_operation}
use novo_chat.Jobs.Transition.{Change, changed_row, transition, failure_change, fail}
use novo_chat.Jobs.Claim.{claimable, claimed_row, has_state}
use novo_chat.Jobs.Valid.{IsValid}
use novo_chat.Jobs.Valid.Updates.{transition-IsValid}
use novo_chat.Executor.Keeps.Rows.{
  AllPairs, AllPairs-compose, AllPairs-update_where, AllPairs-find, SameRow, Moved,
}
use novo_chat.Executor.Settle.{
  clashes, Finished, Place, Place-claimed, Place-refl, Place-trans, Finished-trans,
  transition-Finished, transition-total,
}

clash_twice : {b : Bool} → b ≡ true → b ≡ false → ⊥
clash_twice h k = cc

module _ {A : Type 0} where
  -- The row that a test finds, by a key of its own.
  pub find-Once :
      (here p : A → Bool) (xs : List A) {x : A}
      → Once here xs
      → find_first p xs ≡ some x
      → here x ≡ true
      → find_first here xs ≡ some x
  find-Once here p [] once e h = cc
  find-Once here p (y ∷ xs) {x} once e h = elim (Bool-cases (p y)) [
    | inl hit ↦ let same : y ≡ x = some_inj (rw hit at e) in rw (same, h) refl
    | inr miss ↦
        let later = any-found p here xs (rw miss at e) h in
        elim (Bool-cases (here y)) [
          | inl both ↦ absurd (clash_twice later (once.0 both))
          | inr other ↦ rw other (find-Once here p xs once.1 (rw miss at e) h)
        ]
  ]

  find-updated :
      (here p : A → Bool) (f : A → A) (xs : List A) {x : A}
      → ((y : A) → here (f y) ≡ here y)
      → find_first here xs ≡ some x
      → p x ≡ true
      → find_first here (update_where p f xs) ≡ some (f x)
  find-updated here p f [] k e h = cc
  find-updated here p f (y ∷ xs) {x} k e h = elim (Bool-cases (here y)) [
    | inl hit ↦
        let same : y ≡ x = some_inj (rw hit at e) in
        let here_too : here (f x) ≡ true = k x ∙ (rw same at hit) in rw (same, h, here_too) refl
    | inr miss ↦ elim (Bool-cases (p y)) [
      | inl picked ↦ rw (picked, k y, miss) (find-updated here p f xs k (rw miss at e) h)
      | inr left ↦ rw (left, miss) (find-updated here p f xs k (rw miss at e) h)
    ]
  ]

  AllPairs-any :
      (R : A → A → Type 0) (q q' : A → Bool)
      → ((x y : A) → R x y → q' y ≡ q x)
      → (xs ys : List A) → AllPairs R xs ys
      → any q' ys ≡ any q xs
  AllPairs-any R q q' k [] [] h = refl
  AllPairs-any R q q' k [] (y ∷ ys) h = elim h [ ]
  AllPairs-any R q q' k (x ∷ xs) [] h = elim h [ ]
  AllPairs-any R q q' k (x ∷ xs) (y ∷ ys) h = rw (k x y h.0, AllPairs-any R q q' k xs ys h.1) refl

module _ (lib : Library) (env : String) (now : lib.Real) (o : OperationRow lib)
    (db : Store lib) where
  -- The tables after the claim of `o`.
  abbrev pub claimed_store : Store lib
  claimed_store = record db {
    operations = update_where (claimable lib o.operation_id) (claimed_row lib now) db.operations;
  }

  module _ (valid : IsValid lib db)
      (first : find_first (has_state lib env queued) db.operations ≡ some o) where
    is_queued : (o.state == queued) ≡ true
    is_queued = ground (arith, find_first-eq-some (has_state lib env queued) db.operations first)

    found-claimed :
        find_operation lib o.operation_id claimed_store.operations ≡ some (claimed_row lib now o)
    unfolding find_operation
    found-claimed =
        find-updated (λ r. r.operation_id == o.operation_id) (claimable lib o.operation_id)
          (claimed_row lib now) db.operations (λ y. refl)
          (find-Once (λ r. r.operation_id == o.operation_id) (has_state lib env queued)
            db.operations (Once-of_ids lib o.operation_id db.operations valid.ids) first
            (eq_refl o.operation_id))
          (rw (eq_refl, is_queued) refl)

    module _ {db' : Store lib} (moved : Moved lib o.operation_id claimed_store db') where
      places : AllPairs (Place lib o.operation_id) db.operations db'.operations
      places =
          AllPairs-compose (Place lib o.operation_id) (SameRow lib o.operation_id)
            (Place lib o.operation_id) (Place-trans lib o.operation_id) db.operations
            claimed_store.operations db'.operations
            (AllPairs-update_where (Place lib o.operation_id) (claimable lib o.operation_id)
              (claimed_row lib now) db.operations (Place-refl lib o.operation_id)
              (Place-claimed lib o.operation_id now))
            moved.rows

      -- The row of the operation while it runs.
      found-Moved :
          (r : OperationRow lib) × (find_operation lib o.operation_id db'.operations ≡ some r)
          × SameRow lib o.operation_id (claimed_row lib now o) r
      unfolding find_operation
      found-Moved =
          AllPairs-find (SameRow lib o.operation_id) (λ r. r.operation_id == o.operation_id)
            (λ x y h. ap (λ t. t == o.operation_id) h.id_kept) claimed_store.operations
            db'.operations moved.rows found-claimed

      -- Any end of the operation.
      pub ended-Finished :
          (c : Change lib) {db'' : Store lib}
          → is_terminal c.state ≡ true
          → transition lib o.operation_id c db' ≡ ok db''
          → AllPairs (Finished lib o.operation_id) db.operations db''.operations
            × IsValid lib db''
            × (db''.submissions ≡ db.submissions)
      ended-Finished c {db''} ends h =
          let (rows, submissions) =
            transition-Finished lib o.operation_id c db' ends h moved.valid in
          (
            AllPairs-compose (Place lib o.operation_id) (Finished lib o.operation_id)
                (Finished lib o.operation_id) (Finished-trans lib o.operation_id) db.operations
                db'.operations db''.operations places rows,
            transition-IsValid lib o.operation_id c db' h moved.valid,
            submissions ∙ moved.submissions_kept,
          )

      no_clash :
          (c : Change lib) (r : OperationRow lib)
          → is_terminal c.state ≡ true
          → SameRow lib o.operation_id (claimed_row lib now o) r
          → any (clashes lib o) db.operations ≡ false
          → any
              (λ p. p.operation_id != r.operation_id && same_key lib p (changed_row lib c r))
              db'.operations
            ≡ false
      unfolding same_key
      no_clash c r ends same free =
          AllPairs-any (Place lib o.operation_id) (clashes lib o)
            (λ p. p.operation_id != r.operation_id && same_key lib p (changed_row lib c r))
            (λ x y h.
              rw
                (
                  ends, h.id_kept, h.environment_kept, h.type_kept, h.dedupe_kept, same.id_kept,
                  same.environment_kept, same.type_kept, same.vacated_kept,
                )
                refl)
            db.operations db'.operations places
          ∙ free

      -- `fail` on the operation, wherever its run stopped.
      pub fail-total :
          (code message : String) (retryable : Bool) (later : lib.Real)
          → progress_ok lib lib.zero_real ≡ true
          → any (clashes lib o) db.operations ≡ false
          → (db'' : Store lib) × (fail lib o.operation_id code message retryable later db'
              ≡ ok db'')
      unfolding fail
      fail-total code message retryable later zero free =
          let (r, found, same) = found-Moved in
          let c = failure_change lib code message retryable later in
          transition-total lib o.operation_id c db' refl found (rw same.state_kept refl)
            (no_clash c r refl same free) (same.progress_kept zero)
