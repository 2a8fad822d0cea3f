-- ===== src/Rag/Terms.antt =====
-- novo_chat/rag_core.py: `sanitize_bm25_expansion_terms`. A Python set is a list read by membership; the
-- tokenizer, the planner's key, `split` and `strip` rest on `re`, `unicodedata` and `str`, and are
-- parameters.
use novo_chat.Base.{
  ℕ, String, ◌≤◌, ◌<◌, ◌≡◌, refl, inl, inr, Bool-cases, Bool, false, not, ◌||◌, List, [], ◌∷◌, ◌++◌,
  length, length-append, ◌==◌, string_eq, keep_if, contains, map, leb, arith, All, All-concat,
  if◌then◌else◌,
}
use novo_chat.Rag.Chunks.{is_empty}

pub record TextLibrary : Type 0 where
  pub tokenize : String → List String
  pub meaningful_search_tokens : String → List String
  pub planner_term_key : String → String
  pub normalized_words : String → List String
  pub strip : String → String

-- `a - b` on sets
abbrev pub difference : List String → List String → List String
difference a b = keep_if (λ x. not (contains b x)) a

-- The variables of the loop.
pub record Progress : Type 0 where
  pub sanitized : List String
  pub seen : List String
  pub contributed_tokens : List String

module _ (lib : TextLibrary) where
  open lib use {tokenize, meaningful_search_tokens, planner_term_key, normalized_words, strip}

  unfoldable pub question_keys : String → List String
  question_keys question =
      tokenize question
      ++ keep_if (λ key. not (key == "")) (map planner_term_key (normalized_words question))

  unfoldable pub is_skipped : List String → List String → Progress → String → Bool
  is_skipped tokens keys p term =
      let key = planner_term_key term in
      let novel_tokens = difference (meaningful_search_tokens term) tokens in
      term == ""
      || key == ""
      || contains keys key
      || contains p.seen key
      || is_empty (difference novel_tokens p.contributed_tokens)

  abbrev pub take_term : List String → Progress → String → Progress
  take_term tokens p term = record {
    sanitized = p.sanitized ++ term ∷ [];
    seen = planner_term_key term ∷ p.seen;
    contributed_tokens = difference (meaningful_search_tokens term) tokens ++ p.contributed_tokens;
  }

  -- The loop.
  unfoldable pub sanitize_from :
      List String → List String → ℕ → Progress → List String → List String
  unfolding is_skipped
  sanitize_from tokens keys limit p [] = p.sanitized
  sanitize_from tokens keys limit p (raw_term ∷ terms) =
      let term = strip raw_term in
      let p' = take_term tokens p term in
      let skipped = sanitize_from tokens keys limit p terms in
      let taken = sanitize_from tokens keys limit p' terms in
      if is_skipped tokens keys p term
      then skipped
      else if leb limit (length p'.sanitized)
      then p'.sanitized
      else taken

  unfoldable pub sanitize_bm25_expansion_terms : String → List String → ℕ → List String
  unfolding sanitize_from question_keys
  sanitize_bm25_expansion_terms question terms limit =
      sanitize_from (tokenize question) (question_keys question) limit
        (record { sanitized = []; seen = []; contributed_tokens = [] }) terms

  -- A term with a key outside the question's, and a token that is new to the question.
  unfoldable pub AddsToken : String → String → Type 0
  AddsToken question term =
      (contains (question_keys question) (planner_term_key term) ≡ false)
      × (is_empty (difference (meaningful_search_tokens term) (tokenize question)) ≡ false)

  difference-nonempty :
      (xs ys : List String) → is_empty (difference xs ys) ≡ false → is_empty xs ≡ false
  difference-nonempty [] ys h = h
  difference-nonempty (x ∷ xs) ys h = refl

  taken-AddsToken :
      (question : String) (p : Progress) (term : String)
      → is_skipped (tokenize question) (question_keys question) p term ≡ false
      → AddsToken question term
  unfolding is_skipped AddsToken
  taken-AddsToken question p term h = (
    ground arith,
    difference-nonempty (difference (meaningful_search_tokens term) (tokenize question))
        p.contributed_tokens (ground arith),
  )

  sanitize_from-good :
      (question : String) (limit : ℕ) (p : Progress) (terms : List String)
      → length p.sanitized < limit
      → All (AddsToken question) p.sanitized
      → let result = sanitize_from (tokenize question) (question_keys question) limit p terms in
        (length result ≤ limit) × All (AddsToken question) result
  unfolding sanitize_from
  sanitize_from-good question limit p [] short good = (omega (arith, short), good)
  sanitize_from-good question limit p (raw_term ∷ terms) short good =
      let term = strip raw_term in
      let p' = take_term (tokenize question) p term in
      let size = length-append p.sanitized (term ∷ []) in
      elim (Bool-cases (is_skipped (tokenize question) (question_keys question) p term)) [
        | inl e ↦ rw e (sanitize_from-good question limit p terms short good)
        | inr e ↦
            let good' =
              All-concat (AddsToken question) p.sanitized good
                (taken-AddsToken question p term e) in
            elim (Bool-cases (leb limit (length p'.sanitized))) [
              | inl f ↦ rw (e, f) (omega (arith, size, short), good')
              | inr f ↦ rw (e, f) (sanitize_from-good question limit p' terms (ground arith) good')
            ]
      ]

  -- For a positive limit, at most that many terms come back, and each has a key that the question does
  -- not have and a meaningful token that is not among the question's.
  pub sanitize_bm25_expansion_terms-adds :
      (question : String) (terms : List String) (limit : ℕ)
      → 0 < limit
      → let result = sanitize_bm25_expansion_terms question terms limit in
        (length result ≤ limit) × All (AddsToken question) result
  unfolding sanitize_bm25_expansion_terms
  sanitize_bm25_expansion_terms-adds question terms limit h =
      sanitize_from-good question limit
        (record { sanitized = []; seen = []; contributed_tokens = [] }) terms h tt
