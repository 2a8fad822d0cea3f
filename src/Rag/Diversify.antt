-- ===== src/Rag/Diversify.antt =====
-- novo_chat/rag_core.py: `diversify_by_page`. A score is an element of any type; the page of an index
-- is a parameter, since it reads the chunk's `page_id`, else its `file`, else the index.
pub mod Ranking
use novo_chat.Base.{
  ℕ, suc, String, ◌+◌, ◌<◌, ◌≡◌, min, ◌∙◌, inl, inr, Bool-cases, List, [], ◌∷◌, ◌++◌, length,
  length-append, ◌==◌, string_eq, leb, ltb, arith, if◌then◌else◌,
}

-- `per_page`: `get(page, 0)`, and an assignment
unfoldable pub page_count : String → List (String × ℕ) → ℕ
page_count page [] = 0
page_count page ((p, n) ∷ counts) = if p == page then n else page_count page counts

unfoldable pub set_count : String → ℕ → List (String × ℕ) → List (String × ℕ)
set_count page n [] = (page, n) ∷ []
set_count page n ((p, m) ∷ counts) =
    let rest = set_count page n counts in if p == page then (p, n) ∷ counts else (p, m) ∷ rest

abbrev pub Ranked : Type 0 → Type 0
Ranked Score = List (ℕ × Score)

module _ {Score : Type 0} (count : ℕ) where
  -- The loop over the deferred items.
  unfoldable pub fill : Ranked Score → Ranked Score → Ranked Score
  fill selected [] = selected
  fill selected (item ∷ deferred) =
      let selected' = selected ++ item ∷ [] in
      let rest = fill selected' deferred in if leb count (length selected') then selected' else rest

module _ {Score : Type 0} (page_of : ℕ → String) (count max_per_page : ℕ) where
  -- The loop over the ranking.
  unfoldable pub select :
      Ranked Score → Ranked Score → Ranked Score → List (String × ℕ) → Ranked Score
  unfolding fill page_count set_count
  select [] selected deferred per_page = fill count selected deferred
  select ((index, score) ∷ ranked) selected deferred per_page =
      let page = page_of index in
      let n = page_count page per_page in
      let selected' = selected ++ (index, score) ∷ [] in
      let taken = select ranked selected' deferred (set_count page (suc n) per_page) in
      let skipped = select ranked selected (deferred ++ (index, score) ∷ []) per_page in
      if ltb n max_per_page
      then (if leb count (length selected') then selected' else taken)
      else (if leb count (length selected) then selected else skipped)

  unfoldable pub diversify_by_page : Ranked Score → Ranked Score
  unfolding select
  diversify_by_page ranked = select ranked [] [] []
