-- ===== src/Rag/Citations/Checked.antt =====
-- novo_chat/rag_core.py: which answers `check_citations` accepts.
use novo_chat.Base.{
  String, ◌≡◌, refl, ◌↔◌, ◌⊎◌, inl, inr, Bool, Bool-cases, true, false, not, ◌&&◌, ◌||◌, List, [],
  ◌∷◌, ◌==◌, nat_eq, keep_if, contains, arith, All,
}
use novo_chat.Base.Int.{ℤ, ltb_ℤ}
use novo_chat.Rag.Chunks.{is_empty}
use novo_chat.Rag.Citations.{
  int_eq, CitationLibrary, insert_id, sorted_ids, no_information, citation_numbers, check_citations,
}

contains-insert_id :
    (id : ℤ) (xs : List ℤ) (n : ℤ) → contains (insert_id id xs) n ≡ (n == id || contains xs n)
unfolding insert_id
contains-insert_id id [] n = refl
contains-insert_id id (x ∷ xs) n = elim (Bool-cases (id == x)) [
  | inl e ↦ let same : id ≡ x = (int_eq.equal_iff id x).0 e in rw (e, same) (ground arith)
  | inr e ↦ elim (Bool-cases (ltb_ℤ id x)) [
    | inl l ↦ rw (e, l) refl
    | inr l ↦ rw (e, l, contains-insert_id id xs n) (ground arith)
  ]
]

contains-sorted_ids : (ids : List ℤ) (n : ℤ) → contains (sorted_ids ids) n ≡ contains ids n
unfolding sorted_ids
contains-sorted_ids [] n = refl
contains-sorted_ids (id ∷ ids) n =
    rw (contains-insert_id id (sorted_ids ids) n, contains-sorted_ids ids n) refl

is_empty-nil : (xs : List ℤ) → (is_empty xs ≡ true) ↔ (xs ≡ [])
is_empty-nil [] = (λ h. refl, λ h. refl)
is_empty-nil (x ∷ xs) = (λ h. cc, λ h. cc)

is_empty-insert_id : (id : ℤ) (xs : List ℤ) → is_empty (insert_id id xs) ≡ false
unfolding insert_id
is_empty-insert_id id [] = refl
is_empty-insert_id id (x ∷ xs) = elim (Bool-cases (id == x)) [
  | inl e ↦ rw e refl
  | inr e ↦ elim (Bool-cases (ltb_ℤ id x)) [ inl l ↦ rw (e, l) refl | inr l ↦ rw (e, l) refl ]
]

is_empty-sorted_ids : (ids : List ℤ) → is_empty (sorted_ids ids) ≡ is_empty ids
unfolding sorted_ids
is_empty-sorted_ids [] = refl
is_empty-sorted_ids (id ∷ ids) = is_empty-insert_id id (sorted_ids ids)

-- Nothing of the list is missing, exactly where the ids contain all of it.
none_missing :
    (ids xs : List ℤ)
    → (is_empty (keep_if (λ n. not (contains (sorted_ids ids) n)) xs) ≡ true)
      ↔ All (λ n. contains ids n ≡ true) xs
none_missing ids [] = (λ h. tt, λ h. refl)
none_missing ids (x ∷ xs) = rw (contains-sorted_ids ids x) (elim (Bool-cases (contains ids x)) [
  | inl e ↦ let (there, back) = none_missing ids xs in rw e (λ h. (refl, there h), λ h. back h.1)
  | inr e ↦ rw e (λ h. cc, λ h. cc)
])

-- The three tests of the answer, as three statements.
passed :
    (uncited absent invalid none_left none_odd : Bool)
    → (((not uncited || absent || invalid) && none_left && none_odd) ≡ true) ↔ (
        (none_left ≡ true)
        × (none_odd ≡ true)
        × ((uncited ≡ false) ⊎ (absent ≡ true) ⊎ (invalid ≡ true)))
passed uncited absent invalid none_left none_odd = (λ h. ground arith, λ h. ground arith)

module _ (lib : CitationLibrary) where
  -- An answer passes the check exactly where every cited source is one of the valid ids, no source is
  -- cited in a nonstandard form, and it cites a source, or says that the documents have no information,
  -- or there is no valid id.
  pub check_citations-ok :
      (answer : String) (ids : List ℤ)
      → ((check_citations lib answer ids).is_ok ≡ true) ↔ (
          All (λ n. contains ids n ≡ true) (citation_numbers lib (lib.cited_groups answer))
          × (citation_numbers lib (lib.nonstandard_groups answer) ≡ [])
          × ((is_empty (citation_numbers lib (lib.cited_groups answer)) ≡ false)
              ⊎ (no_information lib answer ≡ true)
              ⊎ (ids ≡ [])))
  unfolding check_citations
  check_citations-ok answer ids =
      let cited = citation_numbers lib (lib.cited_groups answer) in
      let odd = citation_numbers lib (lib.nonstandard_groups answer) in
      let tests = passed (is_empty cited) (no_information lib answer) (is_empty ids) _ _ in
      let left = none_missing ids cited in
      let nothing_odd = is_empty-nil odd in
      let no_ids = is_empty-nil ids in
      rw (is_empty-sorted_ids ids) (
        λ h.
            let (a, b, c) = tests.0 h in
            (
              left.0 a,
              nothing_odd.0 b,
              elim c [
                | inl e ↦ inl e
                | inr (inl e) ↦ inr (inl e)
                | inr (inr e) ↦ inr (inr (no_ids.0 e))
              ],
            ),
        λ h.
            let (a, b, c) = h in
            tests.1 (
              left.1 a,
              nothing_odd.1 b,
              elim c [
                | inl e ↦ inl e
                | inr (inl e) ↦ inr (inl e)
                | inr (inr e) ↦ inr (inr (no_ids.1 e))
              ],
            ),
      )
