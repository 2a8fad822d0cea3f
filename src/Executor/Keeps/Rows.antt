-- ===== src/Executor/Keeps/Rows.antt =====
-- novo_chat/executor.py: the rows of `operations` while one operation runs.
use novo_chat.Base.{
  String, ◌≡◌, refl, sym, ◌∙◌, Bool, true, false, not, ◌&&◌, ◌||◌, Option, some, List, [], ◌∷◌,
  arith, eq_iff, ◌==◌, ◌!=◌, string_eq, inl, inr, Bool-cases, any, find_first, find_first-eq-some,
  some_inj, contains,
}
use novo_chat.Base.Result.{ok, if-eq-ok}
use novo_chat.Protocol.Types.{running, state_eq, JobState}
use novo_chat.Jobs.{Library, OperationRow, Store}
use novo_chat.Jobs.Tables.{progress_ok, same_key, update_where, update_operation}
use novo_chat.Jobs.Tables.Keys.{Once, Once-of_ids, update_where-none}
use novo_chat.Jobs.Tables.Statements.{update_operation-ok}
use novo_chat.Jobs.Submit.{find_operation}
use novo_chat.Jobs.Transition.{set_progress, changed_row, progress_change}
use novo_chat.Jobs.Valid.{IsValid}
use novo_chat.Jobs.Valid.Updates.{transition-ok, transition-IsValid}

-- Two lists, related element by element.
abbrev pub AllPairs : {A : Type 0} → (A → A → Type 0) → List A → List A → Type 0
AllPairs R [] [] = Unit
AllPairs R [] (y ∷ ys) = ⊥
AllPairs R (x ∷ xs) [] = ⊥
AllPairs R (x ∷ xs) (y ∷ ys) = R x y × AllPairs R xs ys

module _ {A : Type 0} (R : A → A → Type 0) where
  pub AllPairs-refl : ((x : A) → R x x) → (xs : List A) → AllPairs R xs xs
  AllPairs-refl r [] = tt
  AllPairs-refl r (x ∷ xs) = (r x, AllPairs-refl r xs)

  pub AllPairs-compose :
      (S T : A → A → Type 0)
      → ((x y z : A) → R x y → S y z → T x z)
      → (xs ys zs : List A) → AllPairs R xs ys
      → AllPairs S ys zs
      → AllPairs T xs zs
  AllPairs-compose S T t [] [] [] h k = tt
  AllPairs-compose S T t [] [] (z ∷ zs) h k = elim k [ ]
  AllPairs-compose S T t [] (y ∷ ys) zs h k = elim h [ ]
  AllPairs-compose S T t (x ∷ xs) [] zs h k = elim h [ ]
  AllPairs-compose S T t (x ∷ xs) (y ∷ ys) [] h k = elim k [ ]
  AllPairs-compose S T t (x ∷ xs) (y ∷ ys) (z ∷ zs) h k =
      (t x y z h.0 k.0, AllPairs-compose S T t xs ys zs h.1 k.1)

  -- An UPDATE relates each row with what it makes of it.
  pub AllPairs-update_where :
      (p : A → Bool) (f : A → A) (xs : List A)
      → ((x : A) → R x x)
      → ((x : A) → p x ≡ true → R x (f x))
      → AllPairs R xs (update_where p f xs)
  AllPairs-update_where p f [] r k = tt
  AllPairs-update_where p f (x ∷ xs) r k = elim (Bool-cases (p x)) [
    | inl e ↦ rw e (k x e, AllPairs-update_where p f xs r k)
    | inr e ↦ rw e (r x, AllPairs-update_where p f xs r k)
  ]

  AllPairs-others :
      (here : A → Bool) (xs : List A)
      → ((y : A) → here y ≡ false → R y y)
      → any here xs ≡ false
      → AllPairs R xs xs
  AllPairs-others here [] r none_here = tt
  AllPairs-others here (x ∷ xs) r none_here =
      (r x (ground (arith, none_here)), AllPairs-others here xs r (ground (arith, none_here)))

  -- The one row that is found is replaced.
  pub AllPairs-update :
      (here : A → Bool) (r : A) (xs : List A) {x : A}
      → ((y : A) → here y ≡ false → R y y)
      → Once here xs
      → find_first here xs ≡ some x
      → R x r
      → AllPairs R xs (update_where here (λ _. r) xs)
  AllPairs-update here r [] refl_R once h k = tt
  AllPairs-update here r (y ∷ ys) {x} refl_R once h k = elim (Bool-cases (here y)) [
    | inl e ↦
        let same : x ≡ y = sym (some_inj (rw e at h)) in
        rw (e, update_where-none here (λ _. r) ys (once.0 e))
          (rw same at k, AllPairs-others here ys refl_R (once.0 e))
    | inr e ↦ rw e (refl_R y e, AllPairs-update here r ys refl_R once.1 (rw e at h) k)
  ]

  -- The row that a test finds, on the other side.
  pub AllPairs-find :
      (here : A → Bool)
      → ((x y : A) → R x y → here y ≡ here x)
      → (xs ys : List A) {x : A} → AllPairs R xs ys
      → find_first here xs ≡ some x
      → (y : A) × (find_first here ys ≡ some y) × R x y
  AllPairs-find here k [] [] h e = cc
  AllPairs-find here k [] (y ∷ ys) h e = elim h [ ]
  AllPairs-find here k (x ∷ xs) [] h e = elim h [ ]
  AllPairs-find here k (x ∷ xs) (y ∷ ys) h e = elim (Bool-cases (here x)) [
    | inl hit ↦ let same = some_inj (rw hit at e) in (y, rw (k x y h.0, hit), rw (← same) h.0)
    | inr miss ↦ rw (k x y h.0, miss) (AllPairs-find here k xs ys h.1 (rw miss at e))
  ]

module _ (lib : Library) (id : String) where
  -- A row while the operation `id` runs: it keeps its place and its state, and if it is of another
  -- operation, all of it.
  pub record SameRow (x y : OperationRow lib) : Type 0 where
    pub id_kept : y.operation_id ≡ x.operation_id
    pub environment_kept : y.environment ≡ x.environment
    pub key_kept : (r : OperationRow lib) → same_key lib y r ≡ same_key lib x r
    pub vacated_kept : y.dedupe_key ≡ x.dedupe_key
    pub type_kept : y.operation_type ≡ x.operation_type
    pub state_kept : y.state ≡ x.state
    pub progress_kept : progress_ok lib x.progress ≡ true → progress_ok lib y.progress ≡ true
    pub other_kept : (x.operation_id == id) ≡ false → y ≡ x

module _ (lib : Library) (id : String) where
  pub SameRow-refl : (x : OperationRow lib) → SameRow lib id x x
  SameRow-refl x = record {
    id_kept = refl;
    environment_kept = refl;
    key_kept = λ r. refl;
    vacated_kept = refl;
    type_kept = refl;
    state_kept = refl;
    progress_kept = λ h. h;
    other_kept = λ h. refl;
  }

  pub SameRow-trans :
      (x y z : OperationRow lib) → SameRow lib id x y → SameRow lib id y z → SameRow lib id x z
  SameRow-trans x y z h k = record {
    id_kept = k.id_kept ∙ h.id_kept;
    environment_kept = k.environment_kept ∙ h.environment_kept;
    key_kept = λ r. k.key_kept r ∙ h.key_kept r;
    vacated_kept = k.vacated_kept ∙ h.vacated_kept;
    type_kept = k.type_kept ∙ h.type_kept;
    state_kept = k.state_kept ∙ h.state_kept;
    progress_kept = λ p. k.progress_kept (h.progress_kept p);
    other_kept = λ e. k.other_kept (rw h.id_kept e) ∙ h.other_kept e;
  }

  -- The tables before and after a part of the run.
  pub record Moved (db db' : Store lib) : Type 0 where
    pub valid : IsValid lib db'
    pub rows : AllPairs (SameRow lib id) db.operations db'.operations
    pub submissions_kept : db'.submissions ≡ db.submissions

module _ (lib : Library) (id : String) where
  pub Moved-refl : (db : Store lib) → IsValid lib db → Moved lib id db db
  Moved-refl db valid = record {
    valid = valid;
    rows = AllPairs-refl (SameRow lib id) (SameRow-refl lib id) db.operations;
    submissions_kept = refl;
  }

  pub Moved-trans :
      {db db' db'' : Store lib} → Moved lib id db db' → Moved lib id db' db'' → Moved lib id db db''
  Moved-trans {db} {db'} {db''} h k = record {
    valid = k.valid;
    rows =
        AllPairs-compose (SameRow lib id) (SameRow lib id) (SameRow lib id) (SameRow-trans lib id)
          db.operations db'.operations db''.operations h.rows k.rows;
    submissions_kept = k.submissions_kept ∙ h.submissions_kept;
  }

  update_operation-progress :
      (r : OperationRow lib) (rows : List (OperationRow lib)) {rows' : List (OperationRow lib)}
      → update_operation lib r rows ≡ ok rows'
      → progress_ok lib r.progress ≡ true
  unfolding update_operation
  update_operation-progress r rows h =
      let (e, _) =
        if-eq-ok
          (any (λ o. o.operation_id != r.operation_id && same_key lib o r) rows
            || not (progress_ok lib r.progress))
          _ _ h in
      ground (arith, e)

  running-of_allowed : (s : JobState) → contains (running ∷ []) s ≡ true → running ≡ s
  running-of_allowed s h = ground arith

  pub set_progress-Moved :
      (progress : lib.Real) (detail : Option lib.Json) (now : lib.Real) (db : Store lib)
      {db' : Store lib}
      → set_progress lib id progress detail now db ≡ ok db'
      → IsValid lib db
      → Moved lib id db db'
  unfolding set_progress find_operation same_key
  set_progress-Moved progress detail now db h valid =
      let c = progress_change lib progress detail now in
      let (o, found, allowed, rows, updated, same) = transition-ok lib id c db h in
      let here : o.operation_id ≡ id = (eq_iff _ _).0 (find_first-eq-some _ db.operations found) in
      let (rows_eq, _) =
        update_operation-ok lib (changed_row lib c o) db.operations updated valid.ids valid.keys in
      let moved : SameRow lib id o (changed_row lib c o) = record {
        id_kept = refl;
        environment_kept = refl;
        key_kept = λ r. refl;
        vacated_kept = refl;
        type_kept = refl;
        state_kept = running-of_allowed o.state allowed;
        progress_kept = λ _. update_operation-progress _ db.operations updated;
        other_kept = λ e. cc (e, (eq_iff o.operation_id id).1 here);
      } in
      record {
        valid = transition-IsValid lib id c db h valid;
        rows =
            rw (same, rows_eq)
              (AllPairs-update (SameRow lib id) (λ r. r.operation_id == o.operation_id)
                (changed_row lib c o) db.operations (λ y _. SameRow-refl lib id y)
                (Once-of_ids lib o.operation_id db.operations valid.ids) (rw (← here) at found)
                moved);
        submissions_kept = rw same refl;
      }
