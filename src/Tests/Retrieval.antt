-- ===== src/Tests/Retrieval.antt =====
-- novo_chat/rag_core.py: small texts and rankings.
use novo_chat.Base.{
  ℕ, String, ◌≡◌, ◌≤◌, take, ◌++◌, refl, List, [], ◌∷◌, length, arith, ◌==◌, nat_eq, string_eq, All,
  if◌then◌else◌,
}
use novo_chat.Rag.Chunks.{chunk_tokens}
use novo_chat.Rag.Rebuild.{rebuild, rebuild-chunk_tokens, chunk_tokens-short}
use novo_chat.Rag.Diversify.{diversify_by_page}
use novo_chat.Rag.Diversify.Ranking.{within_limit, beyond_limit, diversify_by_page-ranked}
use novo_chat.Rag.Terms.{
  TextLibrary, sanitize_bm25_expansion_terms, sanitize_bm25_expansion_terms-adds, AddsToken,
}

abbrev tokens : List ℕ
tokens = 1 ∷ 2 ∷ 3 ∷ 4 ∷ 5 ∷ 6 ∷ 7 ∷ []

seven_tokens : chunk_tokens 3 1 tokens ≡ (1 ∷ 2 ∷ 3 ∷ []) ∷ (3 ∷ 4 ∷ 5 ∷ []) ∷ (5 ∷ 6 ∷ 7 ∷ []) ∷ []
unfolding chunk_tokens
seven_tokens = refl

rebuild-chunk_tokens_example : rebuild 1 (chunk_tokens 3 1 tokens) ≡ tokens
rebuild-chunk_tokens_example = rebuild-chunk_tokens 3 1 tokens (omega arith)

chunk_tokens-short_example : All (λ c. length c ≤ 3) (chunk_tokens 3 1 tokens)
chunk_tokens-short_example = chunk_tokens-short 3 1 tokens

abbrev ranked : List (ℕ × ℕ)
ranked = (0, 9) ∷ (1, 8) ∷ (2, 7) ∷ (3, 6) ∷ []

abbrev page_of : ℕ → String
page_of n = if n == 3 then "b" else "a"

diversify_by_page-ranked_example :
    diversify_by_page page_of 3 2 ranked
    ≡ take 3 (within_limit page_of 3 2 [] ranked ++ beyond_limit page_of 3 2 [] ranked)
diversify_by_page-ranked_example = diversify_by_page-ranked page_of 3 2 ranked (omega arith)

-- The third item of page "a" makes room for the one of page "b".
three_of_four : diversify_by_page page_of 3 2 ranked ≡ (0, 9) ∷ (1, 8) ∷ (3, 6) ∷ []
three_of_four = diversify_by_page-ranked page_of 3 2 ranked (omega arith)

abbrev words : TextLibrary
words = record {
  tokenize = λ s. s ∷ [];
  meaningful_search_tokens = λ s. s ∷ [];
  planner_term_key = λ s. s;
  normalized_words = λ s. s ∷ [];
  strip = λ s. s;
}

sanitize_bm25_expansion_terms-adds_example :
    let result =
      sanitize_bm25_expansion_terms words "yield" ("yield" ∷ "assay" ∷ "assay" ∷ "buffer" ∷ []) 2 in
    (length result ≤ 2) × All (AddsToken words "yield") result
sanitize_bm25_expansion_terms-adds_example =
    sanitize_bm25_expansion_terms-adds words "yield" ("yield" ∷ "assay" ∷ "assay" ∷ "buffer" ∷ []) 2
      (omega arith)
