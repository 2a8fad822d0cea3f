-- ===== src/Rag/Citations.antt =====
-- novo_chat/rag_core.py: `_citation_numbers` and `check_citations`. What `findall` gives for the two
-- citation patterns, `str.strip` and `int` are parameters; the set `seen` has the elements of the list
-- `numbers`, and is read from it.
pub mod Checked
pub mod Numbers
use novo_chat.Base.{
  ℕ, String, ◌≡◌, refl, sym, ap, ◌↔◌, Bool, true, false, not, ◌&&◌, ◌||◌, Option, none, some, List,
  [], ◌∷◌, ◌++◌, ◌==◌, nat_eq, Eq, keep_if, contains, if◌then◌else◌, arith,
}
use novo_chat.Base.Int.{ℤ, pos, negsuc, ltb_ℤ}
use novo_chat.Protocol.Tokens.{codes}
use novo_chat.Rag.Chunks.{is_empty}

-- `==` on integers
abbrev pub int_beq : ℤ → ℤ → Bool
int_beq a b = not (ltb_ℤ a b) && not (ltb_ℤ b a)

pub int_beq-eq : (a b : ℤ) → int_beq a b ≡ true → a ≡ b
int_beq-eq (pos m) (pos n) h = ap pos (ground (arith, h))
int_beq-eq (pos m) (negsuc n) h = absurd (ground (arith, h))
int_beq-eq (negsuc m) (pos n) h = absurd (ground (arith, h))
int_beq-eq (negsuc m) (negsuc n) h = ap negsuc (ground (arith, h))

pub int_beq_refl : (a : ℤ) → int_beq a a ≡ true
int_beq_refl a = ground arith

instance abbrev pub int_eq : Eq ℤ
int_eq = record {
  is_equal = int_beq;
  equal_iff = λ a b. (int_beq-eq a b, λ same. rw same (int_beq_refl b));
}

pub record CitationLibrary : Type 0 where
  pub cited_groups : String → List String
  pub nonstandard_groups : String → List String
  pub strip : List ℕ → List ℕ
  pub parse_int : List ℕ → Option ℤ

abbrev pub prepend : ℕ → List (List ℕ) → List (List ℕ)
prepend c [] = (c ∷ []) ∷ []
prepend c (piece ∷ pieces) = (c ∷ piece) ∷ pieces

-- `group.split(",")`, over code points
unfoldable pub split_commas : List ℕ → List (List ℕ)
split_commas [] = [] ∷ []
split_commas (c ∷ cs) =
    let pieces = split_commas cs in if c == b',' then [] ∷ pieces else prepend c pieces

-- `text.startswith(prefix)`
abbrev pub starts_with : List ℕ → List ℕ → Bool
starts_with [] text = true
starts_with (p ∷ prefix) [] = false
starts_with (p ∷ prefix) (c ∷ text) = p == c && starts_with prefix text

-- `sorted({…})`
unfoldable pub insert_id : ℤ → List ℤ → List ℤ
insert_id id [] = id ∷ []
insert_id id (x ∷ xs) =
    let later = insert_id id xs in
    if id == x then x ∷ xs else if ltb_ℤ id x then id ∷ x ∷ xs else x ∷ later

unfoldable pub sorted_ids : List ℤ → List ℤ
unfolding insert_id
sorted_ids [] = []
sorted_ids (id ∷ ids) = insert_id id (sorted_ids ids)

abbrev pub no_information_text : String
no_information_text = "The provided documents do not contain this information."

pub record CitationCheck : Type 0 where
  pub is_ok : Bool
  pub cited_sources : List ℤ
  pub missing_sources : List ℤ
  pub nonstandard_sources : List ℤ
  pub valid_sources : List ℤ

module _ (lib : CitationLibrary) where
  open lib use {cited_groups, nonstandard_groups, strip, parse_int}

  -- A number that is read, unless it is seen already.
  abbrev pub take_number : Option ℤ → List ℤ → List ℤ
  take_number none numbers = numbers
  take_number (some value) numbers =
      if contains numbers value then numbers else numbers ++ value ∷ []

  -- The loop over the pieces of a group.
  unfoldable pub take_pieces : List (List ℕ) → List ℤ → List ℤ
  take_pieces [] numbers = numbers
  take_pieces (raw ∷ raws) numbers = take_pieces raws (take_number (parse_int (strip raw)) numbers)

  -- The loop over the groups.
  unfoldable pub take_groups : List String → List ℤ → List ℤ
  unfolding take_pieces split_commas
  take_groups [] numbers = numbers
  take_groups (group ∷ groups) numbers =
      take_groups groups (take_pieces (split_commas (codes group)) numbers)

  unfoldable pub citation_numbers : List String → List ℤ
  unfolding take_groups
  citation_numbers groups = take_groups groups []

  abbrev pub no_information : String → Bool
  no_information answer = starts_with (codes no_information_text) (strip (codes answer))

  unfoldable pub check_citations : String → List ℤ → CitationCheck
  unfolding sorted_ids citation_numbers
  check_citations answer valid_source_ids =
      let valid = sorted_ids valid_source_ids in
      let cited = citation_numbers (cited_groups answer) in
      let nonstandard = citation_numbers (nonstandard_groups answer) in
      let missing = keep_if (λ source_id. not (contains valid source_id)) cited in
      let has_required_citation = not (is_empty cited) || no_information answer || is_empty valid in
      record {
        is_ok = has_required_citation && is_empty missing && is_empty nonstandard;
        cited_sources = cited;
        missing_sources = missing;
        nonstandard_sources = nonstandard;
        valid_sources = valid;
      }
