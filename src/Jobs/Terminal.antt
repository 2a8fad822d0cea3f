-- ===== src/Jobs/Terminal.antt =====
-- novo_chat/jobs.py: the row of a finished operation under single statements.
use novo_chat.Base.{
  String, ◌≡◌, refl, sym, ap, ◌∙◌, Bool, true, false, Option, none, some, List, ◌∷◌, [], ◌++◌, ◌&&◌,
  arith, eq_iff, ◌==◌, nat_eq, string_eq, inl, inr, Bool-cases, Option-cases, contains, find_first,
  find_first-eq-some, find_first-append_some, some_inj,
}
use mathlib.Core.Path.{subst}
use novo_chat.Base.Result.{ok, ok-injective, >>=-eq-ok}
use novo_chat.Protocol.Types.{JobState, queued, running, state_eq, operation_eq}
use novo_chat.Jobs.{Library, OperationRow, Store}
use novo_chat.Jobs.Tables.{is_terminal, update_where}
use novo_chat.Jobs.Tables.Statements.{
  update_operation-ok, update_checked-ok, insert_operation-appends,
}
use novo_chat.Jobs.Submit.{
  SubmitRequest, SubmissionOutcome, find_operation, same_caller, same_work, submit,
}
use novo_chat.Jobs.Transition.{Change, transition, changed_row}
use novo_chat.Jobs.Claim.{StoredOperation, claim_next_operation, claimable, claimed_row}
use novo_chat.Jobs.Recovery.{
  recover_interrupted_operations, requeued_row, interrupted_row, is_resumable, is_one_shot,
}
use novo_chat.Jobs.Exclusion.{Claims, claim_next_operation-total}
use novo_chat.Jobs.Valid.{IsValid}
use novo_chat.Jobs.Valid.Updates.{transition-ok}
use novo_chat.Jobs.Valid.Bulk.{resumed-IsValid}
use novo_chat.Jobs.Valid.Submissions.{
  submit_new-ok, join_or_create-created, join_or_create-joined, resubmit-unchanged,
}

-- An UPDATE that does not pick the row found, and moves no row into or out of the search.
find_first-update :
    {A : Type 0} (here p : A → Bool) (f : A → A) (xs : List A) {x : A}
    → ((y : A) → p y ≡ true → here (f y) ≡ here y)
    → find_first here xs ≡ some x
    → p x ≡ false
    → find_first here (update_where p f xs) ≡ some x
find_first-update here p f [] k e miss = cc
find_first-update here p f (y ∷ xs) {x} k e miss = elim (Bool-cases (here y)) [
  | inl hit ↦
      let same : y ≡ x = some_inj (rw hit at e) in
      let kept : p y ≡ false = rw same miss in rw (kept, hit) (rw hit at e)
  | inr other ↦ elim (Bool-cases (p y)) [
    | inl picked ↦
        rw (picked, k y picked, other) (find_first-update here p f xs k (rw other at e) miss)
    | inr left ↦ rw (left, other) (find_first-update here p f xs k (rw other at e) miss)
  ]
]

not_claimable : (b : Bool) (s : JobState) → is_terminal s ≡ true → (b && s == queued) ≡ false
not_claimable b s h = ground arith

not_running : (b : Bool) (s : JobState) → is_terminal s ≡ true → (s == running && b) ≡ false
not_running b s h = ground arith

allowed_and_not : {b : Bool} → b ≡ true → b ≡ false → ⊥
allowed_and_not h k = cc

module _ (lib : Library) where
  found_id :
      {id : String} {o : OperationRow lib} (rows : List (OperationRow lib))
      → find_operation lib id rows ≡ some o
      → o.operation_id ≡ id
  unfolding find_operation
  found_id {id} rows h = (eq_iff _ _).0 (find_first-eq-some (λ r. r.operation_id == id) rows h)

module _ (lib : Library) (id : String) (o : OperationRow lib) where
  -- The table has the row `o` under `id`.
  abbrev pub Holds : List (OperationRow lib) → Type 0
  Holds rows = find_operation lib id rows ≡ some o

  Holds-update :
      (p : OperationRow lib → Bool) (f : OperationRow lib → OperationRow lib)
      (rows : List (OperationRow lib))
      → ((y : OperationRow lib) → p y ≡ true → (f y).operation_id ≡ y.operation_id)
      → p o ≡ false
      → Holds rows
      → Holds (update_where p f rows)
  unfolding find_operation
  Holds-update p f rows k miss h =
      find_first-update (λ r. r.operation_id == id) p f rows (λ y e. ap (λ t. t == id) (k y e)) h
        miss

  Holds-append : (rows more : List (OperationRow lib)) → Holds rows → Holds (rows ++ more)
  unfolding find_operation
  Holds-append rows more h = find_first-append_some (λ r. r.operation_id == id) rows more h

  pub transition-Holds :
      (id' : String) (c : Change lib) (db : Store lib) {db' : Store lib}
      → contains c.allowed_from o.state ≡ false
      → transition lib id' c db ≡ ok db'
      → IsValid lib db
      → Holds db.operations
      → Holds db'.operations
  transition-Holds id' c db frozen h valid held =
      let (o', found, allowed, rows, updated, same) = transition-ok lib id' c db h in
      let (rows_eq, _) =
        update_operation-ok lib (changed_row lib c o') db.operations updated valid.ids valid.keys in
      elim (Bool-cases (o.operation_id == o'.operation_id)) [
        | inl e ↦
            let ids : id ≡ id' =
              sym (found_id lib db.operations held)
              ∙ (eq_iff _ _).0 e
              ∙ found_id lib db.operations found in
            let same_row : o ≡ o' = some_inj (
              sym held
              ∙ subst (λ t. find_operation lib t db.operations ≡ some o') (sym ids) found) in
            absurd (allowed_and_not (rw (← same_row) at allowed) frozen)
        | inr e ↦
            rw (same, rows_eq)
              (Holds-update (λ r. r.operation_id == o'.operation_id) (λ _. changed_row lib c o')
                db.operations (λ y hit. sym ((eq_iff _ _).0 hit)) e held)
      ]

  pub claim-Holds :
      (env : String) (now : lib.Real) (db : Store lib)
      {r : Option (StoredOperation lib) × Store lib}
      → is_terminal o.state ≡ true
      → claim_next_operation lib env now db ≡ ok r
      → IsValid lib db
      → Holds db.operations
      → Holds r.1.operations
  claim-Holds env now db done h valid held =
      let (r', same, claims) = claim_next_operation-total lib env now db valid in
      let eq = ok-injective (sym same ∙ h) in rw (← eq) (go r' claims)
    where
      go :
          (r' : Option (StoredOperation lib) × Store lib)
          → Claims lib env now db r'
          → Holds r'.1.operations
      go (none, db') claims = rw claims.0 held
      go (some job, db') claims = rw claims.5 (
          Holds-update (claimable lib claims.0.operation_id) (claimed_row lib now) db.operations
            (λ y _. refl) (not_claimable _ o.state done) held)

  pub recover-Holds :
      (now : lib.Real) (db : Store lib) {db' : Store lib}
      → is_terminal o.state ≡ true
      → recover_interrupted_operations lib now db ≡ ok db'
      → IsValid lib db
      → Holds db.operations
      → Holds db'.operations
  unfolding recover_interrupted_operations
  recover-Holds now db done h valid held =
      let (rows, checked, h1) = >>=-eq-ok _ _ h in
      let resumed = resumed-IsValid lib now db valid in
      let (rows_eq, _) = update_checked-ok lib _ _ _ checked resumed.keys in
      rw (← ok-injective h1, rows_eq)
        (Holds-update (λ o. o.state == running && is_one_shot o.operation_type)
          (interrupted_row lib now) _ (λ y _. refl) (not_running _ o.state done)
          (Holds-update (λ o. o.state == running && is_resumable o.operation_type)
            (requeued_row lib now) db.operations (λ y _. refl) (not_running _ o.state done) held))

  pub submit-Holds :
      (r : SubmitRequest lib) (db : Store lib) {out : SubmissionOutcome lib × Store lib}
      → submit lib r db ≡ ok out
      → Holds db.operations
      → Holds out.1.operations
  unfolding submit
  submit-Holds r db h held = elim (Option-cases (find_first (same_caller lib r) db.submissions)) [
    | inr (s, again) ↦ rw (resubmit-unchanged lib r s db (rw (again, submit) at h)) held
    | inl first ↦
        let (id', created, operations, submissions, joined, inserted, out_eq, _, _, _) =
          submit_new-ok lib r db (rw (first, submit) at h) in
        elim (Option-cases (find_first (same_work lib r) db.operations)) [
          | inl fresh ↦
              let (_, inserted_o, _, _) =
                join_or_create-created lib r db.operations (rw fresh at joined) in
              rw (out_eq, insert_operation-appends lib _ db.operations inserted_o)
                (Holds-append db.operations _ held)
          | inr (o', found) ↦
              rw
                (
                  out_eq,
                  ap (λ t. t.2) (join_or_create-joined lib r o' db.operations (rw found at joined)),
                )
                held
        ]
  ]
