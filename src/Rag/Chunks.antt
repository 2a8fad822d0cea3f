-- ===== src/Rag/Chunks.antt =====
-- novo_chat/rag_core.py: `chunk_text`. `str.split` and `" ".join` are parameters.
use novo_chat.Base.{
  ℕ, zero, suc, String, ◌+◌, ◌-◌, max, Bool, true, false, List, [], ◌∷◌, length, take, drop, leb,
  map, if◌then◌else◌,
}

abbrev pub is_empty {ℓ} : {A : Type ℓ} → List A → Bool
is_empty [] = true
is_empty (x ∷ xs) = false

module _ {A : Type 0} where
  -- The loop from `start` on. Of the range's starts there are at most as many as tokens, which is the fuel.
  unfoldable pub chunks_from : (words step : ℕ) → List A → (fuel start : ℕ) → List (List A)
  chunks_from words step tokens zero start = []
  chunks_from words step tokens (suc fuel) start =
      let piece = take words (drop start tokens) in
      let rest = chunks_from words step tokens fuel (start + step) in
      if leb (length tokens) start
      then []
      else if is_empty piece
      then []
      else if leb (length tokens) (start + words)
      then piece ∷ []
      else piece ∷ rest

  -- `chunk_text` between the split and the joins
  unfoldable pub chunk_tokens : (words overlap : ℕ) → List A → List (List A)
  unfolding chunks_from
  chunk_tokens words overlap tokens =
      if is_empty tokens
      then []
      else if leb (length tokens) words
      then tokens ∷ []
      else chunks_from words (max 1 (words - overlap)) tokens (length tokens) 0

module _ (split : String → List String) (join : List String → String) where
  unfoldable pub chunk_text : String → (words overlap : ℕ) → List String
  unfolding chunk_tokens
  chunk_text body words overlap = map join (chunk_tokens words overlap (split body))
