-- ===== src/Executor/Settle.antt =====
-- novo_chat/executor.py: from a claim to the end of its operation, on the tables.
pub mod Claimed
use novo_chat.Base.{
  String, ◌≡◌, refl, sym, ap, ◌∙◌, Bool, true, false, not, ◌&&◌, ◌||◌, Option, some, none, List, [],
  ◌∷◌, arith, eq_iff, ◌==◌, ◌!=◌, string_eq, inl, inr, Bool-cases, any, find_first,
  find_first-eq-some, some_inj, contains,
}
use mathlib.Core.Path.{subst}
use novo_chat.Base.Result.{ok}
use novo_chat.Protocol.Types.{queued, running, state_eq, operation_eq, JobState}
use novo_chat.Jobs.{Library, OperationRow, Store}
use novo_chat.Jobs.Tables.{is_terminal, progress_ok, same_key, update_where, update_operation}
use novo_chat.Jobs.Tables.Keys.{Once, Once-of_ids, same_id}
use novo_chat.Jobs.Tables.Statements.{update_operation-ok}
use novo_chat.Jobs.Submit.{find_operation}
use novo_chat.Jobs.Transition.{Change, changed_row, transition, vacated_key, bad_progress}
use novo_chat.Jobs.Claim.{claimable, claimed_row, has_state}
use novo_chat.Jobs.Valid.{IsValid}
use novo_chat.Jobs.Valid.Updates.{transition-ok, transition-IsValid}
use novo_chat.Executor.Keeps.Rows.{
  AllPairs, AllPairs-compose, AllPairs-update_where, AllPairs-update, AllPairs-find, SameRow, Moved,
}

module _ (lib : Library) where
  -- The row under the key of a finished operation.
  abbrev pub vacated : OperationRow lib → OperationRow lib
  vacated o = record o { dedupe_key = vacated_key o.dedupe_key o.operation_id }

  -- Another row already has that key.
  abbrev pub clashes : OperationRow lib → OperationRow lib → Bool
  clashes o p = p.operation_id != o.operation_id && same_key lib p (vacated o)

module _ (lib : Library) (id : String) where
  -- A row before and after the whole run of the operation `id`: a row of another id is the same, and
  -- the row of `id` is terminal, under its vacated key.
  pub record Finished (x y : OperationRow lib) : Type 0 where
    pub id_kept : y.operation_id ≡ x.operation_id
    pub other_kept : (x.operation_id == id) ≡ false → y ≡ x
    pub ended : (x.operation_id == id) ≡ true → is_terminal y.state ≡ true
    pub key_vacated :
        (x.operation_id == id) ≡ true
        → (r : OperationRow lib) → same_key lib y r ≡ same_key lib (vacated lib x) r

  -- A row that keeps what its key is made of.
  pub record Place (x y : OperationRow lib) : Type 0 where
    pub id_kept : y.operation_id ≡ x.operation_id
    pub environment_kept : y.environment ≡ x.environment
    pub dedupe_kept : y.dedupe_key ≡ x.dedupe_key
    pub type_kept : y.operation_type ≡ x.operation_type
    pub other_kept : (x.operation_id == id) ≡ false → y ≡ x

module _ (lib : Library) (id : String) where
  Place-vacated :
      (x y r : OperationRow lib)
      → Place lib id x y
      → same_key lib (vacated lib y) r ≡ same_key lib (vacated lib x) r
  unfolding same_key
  Place-vacated x y r h = rw (h.environment_kept, h.type_kept, h.dedupe_kept, h.id_kept)

  -- A claim, and a part of the run.
  pub Place-claimed :
      (now : lib.Real) (x : OperationRow lib)
      → claimable lib id x ≡ true
      → Place lib id x (claimed_row lib now x)
  Place-claimed now x h = record {
    id_kept = refl;
    environment_kept = refl;
    dedupe_kept = refl;
    type_kept = refl;
    other_kept = λ e. absurd (ground (arith, h, e));
  }

  pub Place-refl : (x : OperationRow lib) → Place lib id x x
  Place-refl x = record {
    id_kept = refl;
    environment_kept = refl;
    dedupe_kept = refl;
    type_kept = refl;
    other_kept = λ _. refl;
  }

  pub Place-trans :
      (x y z : OperationRow lib) → Place lib id x y → SameRow lib id y z → Place lib id x z
  Place-trans x y z h k = record {
    id_kept = k.id_kept ∙ h.id_kept;
    environment_kept = k.environment_kept ∙ h.environment_kept;
    dedupe_kept = k.vacated_kept ∙ h.dedupe_kept;
    type_kept = k.type_kept ∙ h.type_kept;
    other_kept = λ e. k.other_kept (rw h.id_kept e) ∙ h.other_kept e;
  }

  pub Finished-trans :
      (x y z : OperationRow lib) → Place lib id x y → Finished lib id y z → Finished lib id x z
  Finished-trans x y z h k = record {
    id_kept = k.id_kept ∙ h.id_kept;
    other_kept = λ e. k.other_kept (rw h.id_kept e) ∙ h.other_kept e;
    ended = λ e. k.ended (rw h.id_kept e);
    key_vacated = λ e r. k.key_vacated (rw h.id_kept e) r ∙ Place-vacated x y r h;
  }

  -- The change that ends an operation, on its row.
  Finished-changed :
      (c : Change lib) (o : OperationRow lib)
      → is_terminal c.state ≡ true
      → Finished lib o.operation_id o (changed_row lib c o)
  unfolding same_key
  Finished-changed c o h = record {
    id_kept = refl;
    other_kept = λ e. absurd (ground (arith, e, (eq_iff o.operation_id o.operation_id).1 refl));
    ended = λ _. h;
    key_vacated = λ _ r. rw h refl;
  }

  Finished-refl : (x : OperationRow lib) → (x.operation_id == id) ≡ false → Finished lib id x x
  Finished-refl x e = record {
    id_kept = refl;
    other_kept = λ _. refl;
    ended = λ k. absurd (ground (arith, e, k));
    key_vacated = λ k. absurd (ground (arith, e, k));
  }

  -- The last transition, on the tables.
  pub transition-Finished :
      (c : Change lib) (db : Store lib) {db' : Store lib}
      → is_terminal c.state ≡ true
      → transition lib id c db ≡ ok db'
      → IsValid lib db
      → AllPairs (Finished lib id) db.operations db'.operations × (db'.submissions ≡ db.submissions)
  unfolding find_operation
  transition-Finished c db ends h valid =
      let (o, found, allowed, rows, updated, same) = transition-ok lib id c db h in
      let here : o.operation_id ≡ id = (eq_iff _ _).0 (find_first-eq-some _ db.operations found) in
      let (rows_eq, _) =
        update_operation-ok lib (changed_row lib c o) db.operations updated valid.ids valid.keys in
      let last : Finished lib id o (changed_row lib c o) =
        subst (λ t. Finished lib t o (changed_row lib c o)) here (Finished-changed c o ends) in
      (
        rw (same, rows_eq)
            (AllPairs-update (Finished lib id) (λ r. r.operation_id == o.operation_id)
              (changed_row lib c o) db.operations (λ y e. Finished-refl y (rw here at e))
              (Once-of_ids lib o.operation_id db.operations valid.ids) (rw (← here) at found) last),
        rw same refl,
      )

  -- A transition that nothing stops.
  pub transition-total :
      (c : Change lib) (db : Store lib) {o : OperationRow lib}
      → bad_progress lib c.progress ≡ false
      → find_operation lib id db.operations ≡ some o
      → contains c.allowed_from o.state ≡ true
      → any
          (λ p. p.operation_id != o.operation_id && same_key lib p (changed_row lib c o))
          db.operations
        ≡ false
      → progress_ok lib (changed_row lib c o).progress ≡ true
      → (db' : Store lib) × (transition lib id c db ≡ ok db')
  unfolding transition update_operation
  transition-total c db {o} sane found allowed free progress = (
    record db {
      operations =
          update_where (λ p. p.operation_id == o.operation_id) (λ _. changed_row lib c o)
            db.operations;
    },
    rw (sane, found, allowed, free, progress) refl,
  )
