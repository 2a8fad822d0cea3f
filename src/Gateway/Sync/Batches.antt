-- ===== src/Gateway/Sync/Batches.antt =====
-- novo_chat/gateway/sync.py: `_partition_page_batches`.
pub mod Exact
use novo_chat.Base.{ℕ, ◌+◌, Bool, true, false, List, [], ◌∷◌, ◌++◌, ltb, if◌then◌else◌}
use novo_chat.Base.Result.{Result, ok, err}
use novo_chat.Gateway.Sync.{SyncError, export_limit_exceeded}

module _ {Page : Type 0} (page_bytes : Page → ℕ) (max_canonical_bytes : ℕ) where
  -- The comma before a page that is not the first of its batch.
  abbrev pub comma : List Page → ℕ
  comma [] = 0
  comma (page ∷ batch) = 1

  -- The batches that the generator has yielded, and how it ended.
  abbrev pub Yielded : Type 0
  Yielded = List (List Page) × Result SyncError (Unit {0})

  abbrev pub yield_first : List Page → Yielded → Yielded
  yield_first batch rest = (batch ∷ rest.0, rest.1)

  abbrev pub last_batch : List Page → Yielded
  last_batch [] = ([], ok tt)
  last_batch (page ∷ batch) = ((page ∷ batch) ∷ [], ok tt)

  -- A page that does not fit behind a batch: `rest` goes on with the page alone in a new one.
  abbrev pub next_batch : List Page → Page → Yielded → Yielded
  next_batch [] page rest = ([], err export_limit_exceeded)
  next_batch (first ∷ batch) page rest = yield_first (first ∷ batch) (
      if ltb max_canonical_bytes (2 + page_bytes page)
      then ([], err export_limit_exceeded)
      else rest)

  -- The loop, from a batch and its bytes on.
  unfoldable pub partition_from : List Page → ℕ → List Page → Yielded
  partition_from batch batch_bytes [] = last_batch batch
  partition_from batch batch_bytes (page ∷ pages) =
      let candidate_bytes = batch_bytes + page_bytes page + comma batch in
      let started = partition_from (page ∷ []) (2 + page_bytes page) pages in
      let grown = partition_from (batch ++ page ∷ []) candidate_bytes pages in
      if ltb max_canonical_bytes candidate_bytes then next_batch batch page started else grown

  unfoldable pub partition_page_batches : List Page → Yielded
  partition_page_batches pages = partition_from [] 2 pages
