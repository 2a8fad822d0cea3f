-- ===== src/Jobs/Exclusion.antt =====
-- novo_chat/jobs.py: the branches of `claim_next_operation`.
use text.Mathlib.TextPositions.{eq_refl}
use novo_chat.Base.{
  String, ◌≤◌, ◌≡◌, ◌⊎◌, refl, Bool, true, false, Option, none, some, List, ◌∷◌, [], ◌&&◌, arith,
  ◌==◌, nat_eq, string_eq, inl, inr, Bool-cases, Option-cases, any, All, find_first, find_first-any,
  any-found, some_inj, count_if,
}
use novo_chat.Base.Result.{ok}
use novo_chat.Protocol.Types.{queued, running, state_eq}
use novo_chat.Jobs.{Library, OperationRow, Store}
use novo_chat.Jobs.Tables.{update_where}
use novo_chat.Jobs.Tables.Keys.{Once, Once-of_ids}
use novo_chat.Jobs.Claim.{
  StoredOperation, claim_next_operation, claim_row, claimable, claimed_row, has_state,
  stored_operation,
}
use novo_chat.Jobs.Valid.{IsValid, owns}

true≢false : {b : Bool} → b ≡ true → b ≡ false → ⊥
true≢false h k = cc

All-find_first :
    {A : Type 0} (P : A → Type 0) (p : A → Bool) (xs : List A) {x : A}
    → All P xs
    → find_first p xs ≡ some x
    → P x
All-find_first P p [] h e = cc
All-find_first P p (y ∷ xs) h e = elim (Bool-cases (p y)) [
  | inl hit ↦ rw (← some_inj (rw hit at e)) h.0
  | inr miss ↦ All-find_first P p xs h.1 (rw miss at e)
]

count-none :
    {A : Type 0} (here q : A → Bool) (xs : List A)
    → any here xs ≡ false
    → count_if (λ y. here y && q y) xs ≡ 0
count-none here q [] h = refl
count-none here q (y ∷ xs) h = ground (arith, count-none here q xs)

-- The one row of a unique test that also passes a second one.
count-Once :
    {A : Type 0} (here p q : A → Bool) (xs : List A) {x : A}
    → Once here xs
    → find_first p xs ≡ some x
    → here x ≡ true
    → ((y : A) → p y ≡ true → q y ≡ true)
    → count_if (λ y. here y && q y) xs ≡ 1
count-Once here p q [] once e h k = cc
count-Once here p q (y ∷ xs) {x} once e h k = elim (Bool-cases (p y)) [
  | inl hit ↦
      let same : y ≡ x = some_inj (rw hit at e) in
      let yes_here : here y ≡ true = rw same h in
      rw (yes_here, k y hit, count-none here q xs (once.0 yes_here))
  | inr miss ↦
      let later = any-found p here xs (rw miss at e) h in
      elim (Bool-cases (here y)) [
        | inl both ↦ absurd (true≢false later (once.0 both))
        | inr other ↦ rw other (count-Once here p q xs once.1 (rw miss at e) h k)
      ]
]

count-le-update :
    {A : Type 0} (p q : A → Bool) (f : A → A) (xs : List A)
    → any q xs ≡ false
    → count_if q (update_where p f xs) ≤ count_if p xs
count-le-update p q f [] h = omega arith
count-le-update p q f (x ∷ xs) h = ground (arith, count-le-update p q f xs)

module _ (lib : Library) where
  -- What `claim_next_operation` returns, and the tables that it leaves.
  abbrev pub Claims :
      String → lib.Real → Store lib → Option (StoredOperation lib) × Store lib → Type 0
  Claims env now db (none, db') =
      (db' ≡ db)
      × ((any (has_state lib env running) db.operations ≡ true)
          ⊎ (find_first (has_state lib env queued) db.operations ≡ none))
  Claims env now db (some job, db') =
      (o : OperationRow lib) × (find_first (has_state lib env queued) db.operations ≡ some o)
      × (any (has_state lib env running) db.operations ≡ false)
      × (job.operation_id ≡ o.operation_id)
      × (job.state ≡ running)
      × (db' ≡ record db {
        operations =
            update_where (claimable lib o.operation_id) (claimed_row lib now) db.operations;
      })
      × (count_if (has_state lib env running) db'.operations ≤ 1)

  queued_matches :
      (env : String) (o : OperationRow lib)
      → has_state lib env queued o ≡ true
      → (o.state == queued) ≡ true
  queued_matches env o h = ground arith

  -- On valid tables a claim never raises. It returns nothing and changes nothing if an operation of
  -- the environment runs or none is queued there; otherwise it returns the oldest queued operation
  -- of the environment, marks exactly the row of that id as running, and leaves at most one running
  -- operation of the environment.
  pub claim_next_operation-total :
      (env : String) (now : lib.Real) (db : Store lib)
      → IsValid lib db
      → (r : Option (StoredOperation lib) × Store lib) × (claim_next_operation lib env now db
          ≡ ok r)
        × Claims env now db r
  unfolding claim_next_operation claim_row
  claim_next_operation-total env now db valid =
      elim (Bool-cases (any (has_state lib env running) db.operations)) [
        | inl busy ↦ ((none, db), rw busy, (refl, inl busy))
        | inr free ↦ elim (Option-cases (find_first (has_state lib env queued) db.operations)) [
          | inl idle ↦ ((none, db), rw (free, idle, claim_next_operation), (refl, inr idle))
          | inr (o, found) ↦
              let owned =
                All-find_first _ (has_state lib env queued) db.operations valid.owned found in
              let (s, by) = find_first-any (owns lib o) db.submissions owned in
              let single =
                count-Once (λ p. p.operation_id == o.operation_id) (has_state lib env queued)
                  (λ p. p.state == queued) db.operations
                  (Once-of_ids lib o.operation_id db.operations valid.ids) found
                  (eq_refl o.operation_id) (queued_matches env) in
              let db' : Store lib = record db {
                operations =
                    update_where (claimable lib o.operation_id) (claimed_row lib now) db.operations;
              } in
              (
                (some (stored_operation lib (claimed_row lib now o) s), db'),
                rw (free, found, claim_next_operation) (rw (by, single)),
                (
                  o,
                  found,
                  free,
                  refl,
                  refl,
                  refl,
                  omega (
                    arith,
                    count-le-update (claimable lib o.operation_id) (has_state lib env running)
                        (claimed_row lib now) db.operations free,
                    single,
                  ),
                ),
              )
        ]
      ]
