-- ===== src/Jobs/Valid/Deletions.antt =====
-- novo_chat/jobs.py: `purge_terminal_operations`, its foreign key and the validity of the tables.
use novo_chat.Base.{
  ℕ, String, ◌≡◌, refl, sym, ◌∙◌, Bool, true, false, not, ◌&&◌, List, [], ◌∷◌, arith, eq_iff, ◌==◌,
  string_eq, inl, inr, Bool-cases, any, All, All-mono, All-keep_if, not-eq-true, All-both,
  All-of_any, any-false_mono, and-false_right, or-false, or-true_left, or-true_right, keep_if,
  count_if,
}
use mathlib.Core.Path.{subst}
use text.Mathlib.TextPositions.{eq_refl}
use novo_chat.Base.Result.{ok, ok-injective}
use novo_chat.Jobs.{Library, SubmissionRow, OperationRow, Store}
use novo_chat.Jobs.Tables.{submission_conflict, same_key, delete_operations}
use novo_chat.Jobs.Tables.Keys.{==_comm, Free, Free-keep_if, same_id}
use novo_chat.Jobs.Retention.{purge_terminal_operations, purgeable}
use novo_chat.Jobs.Valid.{IsValid, links, owns}

module _ (lib : Library) (purged : OperationRow lib → Bool) where
  -- `operation_id IN (SELECT …)`
  abbrev pub orphaned : List (OperationRow lib) → SubmissionRow → Bool
  orphaned rows s = any (λ o. purged o && o.operation_id == s.operation_id) rows

  -- No submission that is left refers to a purged operation.
  no_reference :
      (rows : List (OperationRow lib)) (subs : List SubmissionRow) (o : OperationRow lib)
      → purged o ≡ true
      → any (λ p. purged p && p.operation_id == o.operation_id) rows ≡ true
      → any (λ s. s.operation_id == o.operation_id) (keep_if (λ s. not (orphaned rows s)) subs)
        ≡ false
  no_reference rows [] o hit h = refl
  no_reference rows (s ∷ subs) o hit h = elim (Bool-cases (s.operation_id == o.operation_id)) [
    | inl e ↦
        let same : o.operation_id ≡ s.operation_id = sym ((eq_iff _ _).0 e) in
        let gone : orphaned rows s ≡ true =
          subst (λ t. any (λ p. purged p && p.operation_id == t) rows ≡ true) same h in
        rw gone (no_reference rows subs o hit h)
    | inr e ↦ ground (arith, e, no_reference rows subs o hit h)
  ]

  no_dangling :
      (rows picked : List (OperationRow lib)) (subs : List SubmissionRow)
      → All
          (λ o.
            purged o ≡ true → any (λ p. purged p && p.operation_id == o.operation_id) rows ≡ true)
          picked
      → any
          (λ o.
            purged o
            && any
                (λ s. s.operation_id == o.operation_id)
                (keep_if (λ s. not (orphaned rows s)) subs))
          picked
        ≡ false
  no_dangling rows [] subs h = refl
  no_dangling rows (o ∷ picked) subs h = elim (Bool-cases (purged o)) [
    | inl e ↦ rw (e, no_reference rows subs o e (h.0 e)) (no_dangling rows picked subs h.1)
    | inr e ↦ rw e (no_dangling rows picked subs h.1)
  ]

  self_picked :
      (o : OperationRow lib)
      → purged o ≡ true
      → (purged o && o.operation_id == o.operation_id) ≡ true
  self_picked o e = rw (e, eq_refl)

  -- Every purged row of the table is picked by the sub-select.
  picked_self :
      (rows : List (OperationRow lib))
      → All
          (λ o.
            purged o ≡ true → any (λ p. purged p && p.operation_id == o.operation_id) rows ≡ true)
          rows
  picked_self [] = tt
  picked_self (o ∷ rows) = (
    λ e. or-true_left _ _ (self_picked o e),
    All-mono _ _ rows (λ x k e. or-true_right _ _ (k e)) (picked_self rows),
  )

  -- What a purge leaves of the submissions, and of the operations.
  abbrev pub kept_submissions : Store lib → List SubmissionRow
  kept_submissions db = keep_if (λ s. not (orphaned db.operations s)) db.submissions

  abbrev pub kept_operations : Store lib → List (OperationRow lib)
  kept_operations db = keep_if (λ o. not (purged o)) db.operations

  -- The foreign key never stops the second DELETE.
  pub delete_operations-ok :
      (db : Store lib)
      → delete_operations lib purged (kept_submissions db) db.operations ≡ ok (kept_operations db)
  unfolding delete_operations
  delete_operations-ok db =
      rw (no_dangling db.operations db.operations db.submissions (picked_self db.operations))

  any-links_kept :
      (rows : List (OperationRow lib)) (s : SubmissionRow)
      → orphaned rows s ≡ false
      → any (links lib s) rows ≡ true
      → any (links lib s) (keep_if (λ o. not (purged o)) rows) ≡ true
  any-links_kept [] s h k = k
  any-links_kept (o ∷ rows) s h k = ground (arith, any-links_kept rows s)

  any-owns_kept :
      (rows : List (OperationRow lib)) (subs : List SubmissionRow) (o : OperationRow lib)
      → any (λ p. purged p && p.operation_id == o.operation_id) rows ≡ false
      → any (owns lib o) subs ≡ true
      → any (owns lib o) (keep_if (λ s. not (orphaned rows s)) subs) ≡ true
  any-owns_kept rows [] o h k = k
  any-owns_kept rows (s ∷ subs) o h k = elim (Bool-cases (s.operation_id == o.operation_id)) [
    | inl e ↦
        let same : o.operation_id ≡ s.operation_id = sym ((eq_iff _ _).0 e) in
        let stays : orphaned rows s ≡ false =
          subst (λ t. any (λ p. purged p && p.operation_id == t) rows ≡ false) same h in
        rw stays (or-true_left _ _ e)
    | inr e ↦ ground (arith, e, any-owns_kept rows subs o h)
  ]

  -- No purged row shares the id of a row that stays.
  kept_alone :
      (rows : List (OperationRow lib))
      → Free (same_id lib) rows
      → All
          (λ o.
            not (purged o) ≡ true
            → any (λ p. purged p && p.operation_id == o.operation_id) rows ≡ false)
          rows
  kept_alone [] free = tt
  kept_alone (o ∷ rows) free = (
    λ e. rw (not-eq-true _ e) (
        any-false_mono (same_id lib o) (λ p. purged p && p.operation_id == o.operation_id) rows
          (λ p. and-false_right (purged p) (p.operation_id == o.operation_id)) free.0),
    All-both _ _ _ rows
        (λ x apart k e.
          or-false _ _
            (and-false_right (purged o) (o.operation_id == x.operation_id)
              (==_comm o.operation_id x.operation_id ∙ apart))
            (k e))
        (All-of_any (same_id lib o) rows free.0) (kept_alone rows free.1),
  )

  without-IsValid :
      (db : Store lib)
      → IsValid lib db
      → IsValid lib
          (record db { operations = kept_operations db; submissions = kept_submissions db })
  without-IsValid db valid = record {
    ids = Free-keep_if (same_id lib) _ db.operations valid.ids;
    keys = Free-keep_if (same_key lib) _ db.operations valid.keys;
    handles = Free-keep_if submission_conflict _ db.submissions valid.handles;
    linked =
        All-keep_if _ _ (λ s. not (orphaned db.operations s)) db.submissions
          (λ s e k. any-links_kept db.operations s (not-eq-true _ e) k) valid.linked;
    slots = valid.slots;
    owned =
        All-keep_if _ _ (λ o. not (purged o)) db.operations
          (λ o e k. any-owns_kept db.operations db.submissions o (k.0 e) k.1)
          (All-both _ _
            (λ o.
              (not (purged o) ≡ true
                → any (λ p. purged p && p.operation_id == o.operation_id) db.operations ≡ false)
              × (any (owns lib o) db.submissions ≡ true))
            db.operations (λ o a b. (a, b)) (kept_alone db.operations valid.ids) valid.owned);
  }

module _ (lib : Library) where
  -- A purge always returns: it removes exactly the expired terminal operations and their handles.
  pub purge_lem :
      (env : String) (before : lib.Real) (db : Store lib)
      → let purged = purgeable lib env (lib.utc_timestamp before) in
        purge_terminal_operations lib env before db
        ≡ ok (
          count_if purged db.operations,
          record db {
            operations = kept_operations lib purged db;
            submissions = kept_submissions lib purged db;
          },
        )
  unfolding purge_terminal_operations
  purge_lem env before db =
      rw (delete_operations-ok lib (purgeable lib env (lib.utc_timestamp before)) db)

  pub purge-IsValid :
      (env : String) (before : lib.Real) (db : Store lib) {out : ℕ × Store lib}
      → purge_terminal_operations lib env before db ≡ ok out
      → IsValid lib db
      → IsValid lib out.1
  purge-IsValid env before db h valid =
      let done = ok-injective (sym (purge_lem env before db) ∙ h) in
      rw (← done) (without-IsValid lib (purgeable lib env (lib.utc_timestamp before)) db valid)
