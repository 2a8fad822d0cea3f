-- ===== src/Executor/Drain/Rounds.antt =====
-- novo_chat/executor.py: the rounds of `run_until_idle`.
use novo_chat.Base.{
  suc, String, ◌≡◌, refl, Bool, true, false, ◌&&◌, ◌||◌, some, List, [], ◌∷◌, arith, ◌==◌, ◌!=◌,
  string_eq, inl, inr, Bool-cases, any, All, All-mono, find_first, some_inj, count_if,
}
use novo_chat.Protocol.Types.{queued, running, JobState, state_eq, operation_eq}
use novo_chat.Jobs.{Library, OperationRow}
use novo_chat.Jobs.Tables.{same_key, is_terminal}
use novo_chat.Jobs.Tables.Keys.{Once}
use novo_chat.Jobs.Claim.{has_state}
use novo_chat.Executor.Keeps.Rows.{AllPairs}
use novo_chat.Executor.Settle.{clashes, vacated, Finished}

module _ {A : Type 0} where
  pub All-first :
      (P : A → Type 0) (p : A → Bool) (xs : List A) {x : A}
      → All P xs
      → find_first p xs ≡ some x
      → P x
  All-first P p [] h e = cc
  All-first P p (y ∷ xs) h e = elim (Bool-cases (p y)) [
    | inl hit ↦ rw (← some_inj (rw hit at e)) h.0
    | inr miss ↦ All-first P p xs h.1 (rw miss at e)
  ]

  pub AllPairs-none :
      (R : A → A → Type 0) (P : A → Type 0) (q q' : A → Bool)
      → ((x y : A) → P x → R x y → q x ≡ false → q' y ≡ false)
      → (xs ys : List A) → All P xs
      → AllPairs R xs ys
      → any q xs ≡ false
      → any q' ys ≡ false
  AllPairs-none R P q q' k [] [] a h e = refl
  AllPairs-none R P q q' k [] (y ∷ ys) a h e = elim h [ ]
  AllPairs-none R P q q' k (x ∷ xs) [] a h e = elim h [ ]
  AllPairs-none R P q q' k (x ∷ xs) (y ∷ ys) a h e =
      ground (arith, e, k x y a.0 h.0, AllPairs-none R P q q' k xs ys a.1 h.1)

  All-pairs :
      (R : A → A → Type 0) (P Q : A → Type 0)
      → ((x y : A) → P x → R x y → Q y)
      → (xs ys : List A) → All P xs
      → AllPairs R xs ys
      → All Q ys
  All-pairs R P Q k [] [] a h = tt
  All-pairs R P Q k [] (y ∷ ys) a h = elim h [ ]
  All-pairs R P Q k (x ∷ xs) [] a h = elim h [ ]
  All-pairs R P Q k (x ∷ xs) (y ∷ ys) a h = (k x y a.0 h.0, All-pairs R P Q k xs ys a.1 h.1)

  -- The rows that a test of a key picks are the one found.
  All-Once :
      (here : A → Bool) (xs : List A) {x : A}
      → Once here xs
      → find_first here xs ≡ some x
      → All (λ y. here y ≡ true → y ≡ x) xs
  All-Once here [] once e = tt
  All-Once here (y ∷ xs) {x} once e = elim (Bool-cases (here y)) [
    | inl hit ↦ (λ _. some_inj (rw hit at e), none_later xs (once.0 hit))
    | inr miss ↦ (λ h. absurd (ground (arith, h, miss)), All-Once here xs once.1 (rw miss at e))
  ]
    where
      none_later : (ys : List A) → any here ys ≡ false → All (λ y. here y ≡ true → y ≡ x) ys
      none_later [] h = tt
      none_later (y ∷ ys) h =
          (λ k. absurd (ground (arith, h, k)), none_later ys (ground (arith, h)))

module _ (lib : Library) (env : String) where
  -- A row whose key, or vacated key if it is queued, is the vacated key of `o`.
  abbrev pub crowds : OperationRow lib → OperationRow lib → Bool
  crowds o p =
      p.operation_id != o.operation_id
      && (same_key lib p (vacated lib o)
          || p.state == queued && same_key lib (vacated lib p) (vacated lib o))

  -- The vacated keys of the queued operations are free, and pairwise apart.
  abbrev pub IsRoomy : List (OperationRow lib) → Type 0
  IsRoomy rows = All (λ o. (o.state == queued) ≡ true → any (crowds o) rows ≡ false) rows

  pub any-clashes :
      (o : OperationRow lib) (rows : List (OperationRow lib))
      → any (crowds o) rows ≡ false
      → any (clashes lib o) rows ≡ false
  any-clashes o [] h = refl
  any-clashes o (p ∷ rows) h = ground (arith, h, any-clashes o rows)

  terminal_not_queued : (s : JobState) → is_terminal s ≡ true → (s == queued) ≡ false
  terminal_not_queued s h = ground arith

  terminal_not_state :
      (b : Bool) (s : JobState)
      → is_terminal s ≡ true
      → ((b && s == queued) ≡ false) × ((b && s == running) ≡ false)
  terminal_not_state b s h = ground arith

  module _ (id : String) where
    -- A row that is not running before is not running after.
    pub still_not_running :
        (x y : OperationRow lib)
        → Unit {0}
        → Finished lib id x y
        → has_state lib env running x ≡ false
        → has_state lib env running y ≡ false
    still_not_running x y _ h e = elim (Bool-cases (x.operation_id == id)) [
      | inl hit ↦ (terminal_not_state (y.environment == env) y.state (h.ended hit)).1
      | inr miss ↦ rw (h.other_kept miss) e
    ]

    uncrowded :
        (o x y : OperationRow lib)
        → ((x.operation_id == id) ≡ true → (x.state == queued) ≡ true)
        → Finished lib id x y
        → crowds o x ≡ false
        → crowds o y ≡ false
    uncrowded o x y q h e = elim (Bool-cases (x.operation_id == id)) [
      | inl hit ↦
          rw
            (
              h.key_vacated hit (vacated lib o),
              terminal_not_queued y.state (h.ended hit),
              h.id_kept,
            )
            (ground (arith, q hit, e))
      | inr miss ↦ rw (h.other_kept miss) e
    ]

    module _ (rows rows' : List (OperationRow lib)) {o : OperationRow lib}
        (once : Once (λ r. r.operation_id == id) rows)
        (found : find_first (λ r. r.operation_id == id) rows ≡ some o)
        (is_queued : has_state lib env queued o ≡ true)
        (ends : AllPairs (Finished lib id) rows rows') where
      all_queued : All (λ x. (x.operation_id == id) ≡ true → (x.state == queued) ≡ true) rows
      all_queued =
          All-mono _ _ rows (λ x same h. rw (same h) (ground (arith, is_queued)))
            (All-Once (λ r. r.operation_id == id) rows once found)

      pub IsRoomy-kept : IsRoomy rows → IsRoomy rows'
      IsRoomy-kept roomy =
          All-pairs (Finished lib id)
            (λ x. (x.state == queued) ≡ true → any (crowds x) rows ≡ false)
            (λ y. (y.state == queued) ≡ true → any (crowds y) rows' ≡ false)
            (λ x y free h k. elim (Bool-cases (x.operation_id == id)) [
              | inl hit ↦ absurd (ground (arith, k, terminal_not_queued y.state (h.ended hit)))
              | inr miss ↦
                  let same : y ≡ x = h.other_kept miss in
                  rw same (
                    AllPairs-none (Finished lib id) _ (crowds x) (crowds x) (uncrowded x) rows rows'
                      all_queued ends (free (rw same at k)))
            ])
            rows rows' roomy ends

    same_count :
        (rows rows' : List (OperationRow lib))
        → AllPairs (Finished lib id) rows rows'
        → any (λ r. r.operation_id == id) rows ≡ false
        → count_if (has_state lib env queued) rows' ≡ count_if (has_state lib env queued) rows
    same_count [] [] h e = refl
    same_count [] (y ∷ ys) h e = elim h [ ]
    same_count (x ∷ xs) [] h e = elim h [ ]
    same_count (x ∷ xs) (y ∷ ys) h e =
        rw (h.0.other_kept (ground (arith, e)), same_count xs ys h.1 (ground (arith, e))) refl

    -- One queued operation of the environment less.
    pub count-ended :
        (rows rows' : List (OperationRow lib)) {o : OperationRow lib}
        → Once (λ r. r.operation_id == id) rows
        → find_first (λ r. r.operation_id == id) rows ≡ some o
        → has_state lib env queued o ≡ true
        → AllPairs (Finished lib id) rows rows'
        → count_if (has_state lib env queued) rows ≡ suc (count_if (has_state lib env queued) rows')
    count-ended [] [] once e q h = cc
    count-ended [] (y ∷ ys) once e q h = elim h [ ]
    count-ended (x ∷ xs) [] once e q h = elim h [ ]
    count-ended (x ∷ xs) (y ∷ ys) {o} once e q h = elim (Bool-cases (x.operation_id == id)) [
      | inl hit ↦
          let same : x ≡ o = some_inj (rw hit at e) in
          let here : has_state lib env queued x ≡ true = rw same q in
          rw
            (
              here,
              (terminal_not_state (y.environment == env) y.state (h.0.ended hit)).0,
              same_count xs ys h.1 (once.0 hit),
            )
            refl
      | inr miss ↦
          rw (h.0.other_kept miss) (ground (arith, count-ended xs ys once.1 (rw miss at e) q h.1))
    ]
