-- ===== src/Rag/Citations/Numbers.antt =====
-- novo_chat/rag_core.py: the numbers that `_citation_numbers` collects.
use novo_chat.Base.{
  ℕ, String, ◌≡◌, refl, inl, inr, Bool, Bool-cases, true, false, ◌||◌, Option, none, some, List, [],
  ◌∷◌, ◌++◌, ◌==◌, contains, distinct, any, arith,
}
use novo_chat.Base.Int.{ℤ}
use novo_chat.Protocol.Tokens.{codes}
use novo_chat.Rag.Citations.{
  int_eq, CitationLibrary, split_commas, take_number, take_pieces, take_groups, citation_numbers,
}

contains-append :
    (xs ys : List ℤ) (n : ℤ) → contains (xs ++ ys) n ≡ (contains xs n || contains ys n)
contains-append [] ys n = refl
contains-append (x ∷ xs) ys n = ground (arith, contains-append xs ys n)

-- A list with an element that it lacks put last.
distinct-append :
    (xs : List ℤ) (v : ℤ)
    → distinct xs ≡ true
    → contains xs v ≡ false
    → distinct (xs ++ v ∷ []) ≡ true
distinct-append [] v d lacks = refl
distinct-append (x ∷ xs) v d lacks = ground (
  arith,
  distinct-append xs v,
  contains-append xs (v ∷ []) x,
  int_eq.equal_iff x v,
  int_eq.equal_iff v x,
  d,
  lacks,
)

abbrev reads : ℤ → Option ℤ → Bool
reads n none = false
reads n (some v) = n == v

module _ (lib : CitationLibrary) where
  open lib use {strip, parse_int}

  contains-take_number :
      (o : Option ℤ) (numbers : List ℤ) (n : ℤ)
      → contains (take_number lib o numbers) n ≡ (contains numbers n || reads n o)
  contains-take_number none numbers n = ground arith
  contains-take_number (some v) numbers n = elim (Bool-cases (contains numbers v)) [
    | inl e ↦ elim (Bool-cases (n == v)) [
      | inl same ↦ let is_v : n ≡ v = (int_eq.equal_iff n v).0 same in rw (e, same, is_v, e) refl
      | inr other ↦ rw (e, other) (ground arith)
    ]
    | inr e ↦ rw (e, contains-append numbers (v ∷ []) n) (ground arith)
  ]

  distinct-take_number :
      (o : Option ℤ) (numbers : List ℤ)
      → distinct numbers ≡ true
      → distinct (take_number lib o numbers) ≡ true
  distinct-take_number none numbers d = d
  distinct-take_number (some v) numbers d = elim (Bool-cases (contains numbers v)) [
    | inl e ↦ rw e d
    | inr e ↦ rw e (distinct-append numbers v d e)
  ]

  -- A piece of a group that reads as the number.
  abbrev pub is_read_in : ℤ → String → Bool
  is_read_in n group = any (λ raw. reads n (parse_int (strip raw))) (split_commas (codes group))

  contains-take_pieces :
      (raws : List (List ℕ)) (numbers : List ℤ) (n : ℤ)
      → contains (take_pieces lib raws numbers) n
        ≡ (contains numbers n || any (λ raw. reads n (parse_int (strip raw))) raws)
  unfolding take_pieces
  contains-take_pieces [] numbers n = ground arith
  contains-take_pieces (raw ∷ raws) numbers n =
      let o = parse_int (strip raw) in
      rw (contains-take_pieces raws (take_number lib o numbers) n, contains-take_number o numbers n)
        (ground arith)

  distinct-take_pieces :
      (raws : List (List ℕ)) (numbers : List ℤ)
      → distinct numbers ≡ true
      → distinct (take_pieces lib raws numbers) ≡ true
  unfolding take_pieces
  distinct-take_pieces [] numbers d = d
  distinct-take_pieces (raw ∷ raws) numbers d =
      let o = parse_int (strip raw) in
      distinct-take_pieces raws (take_number lib o numbers) (distinct-take_number o numbers d)

  contains-take_groups :
      (groups : List String) (numbers : List ℤ) (n : ℤ)
      → contains (take_groups lib groups numbers) n
        ≡ (contains numbers n || any (is_read_in n) groups)
  unfolding take_groups
  contains-take_groups [] numbers n = ground arith
  contains-take_groups (group ∷ groups) numbers n =
      let raws = split_commas (codes group) in
      rw
        (
          contains-take_groups groups (take_pieces lib raws numbers) n,
          contains-take_pieces raws numbers n,
        )
        (ground arith)

  distinct-take_groups :
      (groups : List String) (numbers : List ℤ)
      → distinct numbers ≡ true
      → distinct (take_groups lib groups numbers) ≡ true
  unfolding take_groups
  distinct-take_groups [] numbers d = d
  distinct-take_groups (group ∷ groups) numbers d =
      distinct-take_groups groups (take_pieces lib (split_commas (codes group)) numbers)
        (distinct-take_pieces (split_commas (codes group)) numbers d)

  -- The collected numbers are the ones that a piece of a group reads as, each once.
  pub citation_numbers-exact :
      (groups : List String)
      → (distinct (citation_numbers lib groups) ≡ true)
        × ((n : ℤ) → contains (citation_numbers lib groups) n ≡ any (is_read_in n) groups)
  unfolding citation_numbers
  citation_numbers-exact groups =
      (distinct-take_groups groups [] refl, contains-take_groups groups [])
