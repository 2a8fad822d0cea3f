-- ===== src/Tests/Citations.antt =====
-- novo_chat/rag_core.py: an answer with citations.
use novo_chat.Base.{
  ℕ, String, ◌≡◌, refl, ◌↔◌, ◌⊎◌, ◌-◌, true, false, Option, none, some, List, [], ◌∷◌, ◌==◌,
  string_eq, contains, distinct, any, All, if◌then◌else◌,
}
use novo_chat.Base.Int.{ℤ, pos}
use novo_chat.Rag.Chunks.{is_empty}
use novo_chat.Rag.Citations.{
  int_eq, CitationLibrary, no_information, citation_numbers, check_citations, insert_id, sorted_ids,
  take_groups, take_pieces, split_commas,
}
use novo_chat.Rag.Citations.Checked.{check_citations-ok}
use novo_chat.Rag.Citations.Numbers.{is_read_in, citation_numbers-exact}

abbrev answer : String
answer = "Yes [2,1], and no [1,3]."

-- A number of one digit.
abbrev read_digit : List ℕ → Option ℤ
read_digit (c ∷ []) = some (pos (c - b'0'))
read_digit _ = none

abbrev citation_lib : CitationLibrary
citation_lib = record {
  cited_groups = λ text. if text == answer then "2,1" ∷ "1,3" ∷ [] else [];
  nonstandard_groups = λ text. [];
  strip = λ text. text;
  parse_int = read_digit;
}

checked : check_citations citation_lib answer (pos 2 ∷ pos 1 ∷ pos 2 ∷ []) ≡ record {
  is_ok = false;
  cited_sources = pos 2 ∷ pos 1 ∷ pos 3 ∷ [];
  missing_sources = pos 3 ∷ [];
  nonstandard_sources = [];
  valid_sources = pos 1 ∷ pos 2 ∷ [];
}
unfolding check_citations sorted_ids insert_id citation_numbers take_groups take_pieces split_commas
checked = refl

citation_numbers-exact_example :
    (distinct (citation_numbers citation_lib ("2,1" ∷ "1,3" ∷ [])) ≡ true)
    × ((n : ℤ)
        → contains (citation_numbers citation_lib ("2,1" ∷ "1,3" ∷ [])) n
          ≡ any (is_read_in citation_lib n) ("2,1" ∷ "1,3" ∷ []))
citation_numbers-exact_example = citation_numbers-exact citation_lib ("2,1" ∷ "1,3" ∷ [])

abbrev ids : List ℤ
ids = pos 1 ∷ pos 2 ∷ pos 3 ∷ []

check_citations-ok_example : ((check_citations citation_lib answer ids).is_ok ≡ true) ↔ (
    All
      (λ n. contains ids n ≡ true)
      (citation_numbers citation_lib (citation_lib.cited_groups answer))
    × (citation_numbers citation_lib (citation_lib.nonstandard_groups answer) ≡ [])
    × ((is_empty (citation_numbers citation_lib (citation_lib.cited_groups answer)) ≡ false)
        ⊎ (no_information citation_lib answer ≡ true)
        ⊎ (ids ≡ [])))
check_citations-ok_example = check_citations-ok citation_lib answer ids
