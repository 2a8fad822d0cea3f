-- ===== src/Gateway/Sync/Export.antt =====
-- novo_chat/gateway/sync.py: `_export_and_ingest`.
pub mod Bounded
use novo_chat.Base.{
  ℕ, zero, suc, String, ◌+◌, Bool, true, false, not, ◌||◌, Option, none, some, List, [], ◌∷◌, ◌++◌,
  map, length, ltb, any, contains, distinct, string_eq, if◌then◌else◌,
}
use novo_chat.Base.Result.{Result, ok, err}
use novo_chat.Base.Action.{Action, ◌>>=◌, ◌>>◌, return, throw}
use novo_chat.Gateway.Sync.{
  SyncError, export_limit_exceeded, unsupported_page, duplicate_page, invalid_cursor,
}
use novo_chat.Gateway.Sync.Batches.{partition_page_batches}
use novo_chat.Gateway.Sync.Polling.{Job, wait_for_job}

pub record Settings : Type 0 where
  pub novo_export_max_batches : ℕ
  pub novo_export_max_pages : ℕ
  pub ingest_batch_max_bytes : ℕ

-- What Novo exported: its page documents, none where one does not validate; the cursor is none where
-- it is missing or empty.
pub record Exported (Page : Type 0) : Type 0 where
  pub documents : Option (List Page)
  pub complete : Bool
  pub next_cursor : Option String

pub record ExportSummary : Type 0 where
  pub notebook_id : String
  pub page_count : ℕ
  pub batch_count : ℕ
  pub document_checksum : String

-- The clients, for one notebook of one session, whose id is given: each answer, and the world after it.
pub record Clients (Page World : Type 0) : Type 0 where
  pub notebook_id : String
  pub page_id : Page → String
  pub page_bytes : Page → ℕ
  pub batch_checksum : List Page → String
  pub document_checksum : List Page → String
  -- of the operation, the numbers and the checksum of the key's `extra`
  pub idempotency_key : String → List ℕ → String → String
  pub export_pages : Option String → World → Result SyncError (Exported Page) × World
  pub ingest_batch : String → ℕ → List Page → World → Result SyncError Job × World
  pub ingest_finalize : String → String → ℕ → ℕ → World → Result SyncError Job × World
  pub job_status : String → World → Result SyncError Job × World

-- The variables of the loop; `exported` is what the checksum has hashed.
pub record Progress (Page : Type 0) : Type 0 where
  pub cursor : Option String
  pub seen_cursors : List String
  pub seen_page_ids : List String
  pub page_count : ℕ
  pub batch_count : ℕ
  pub exported : List Page

module _ {Page World : Type 0} (clients : Clients Page World) (settings : Settings)
    (polls : ℕ) where
  open clients use {
    notebook_id, page_id, page_bytes, batch_checksum, document_checksum, idempotency_key,
    export_pages, ingest_batch, ingest_finalize, job_status,
  }

  abbrev pub SyncTask : Type 0 → Type 0
  SyncTask = Action World SyncError

  abbrev pub lift : {A : Type 0} → Result SyncError A → SyncTask A
  lift (ok a) = return a
  lift (err e) = throw e

  -- The loop over the batches of one export: the number of the next batch.
  unfoldable pub send_batches : ℕ → List (List Page) → SyncTask ℕ
  send_batches batch_count [] = return batch_count
  send_batches batch_count (batch ∷ batches) = do
    submitted ←
        ingest_batch (idempotency_key "ingest-batch" (batch_count ∷ []) (batch_checksum batch))
          batch_count batch
    job ← wait_for_job job_status polls submitted "ingest_batch"
    send_batches (batch_count + 1) batches

  abbrev pub has_duplicate : List String → List String → Bool
  has_duplicate seen page_ids = not (distinct page_ids) || any (contains seen) page_ids

  abbrev pub read_documents : Exported Page → SyncTask (List Page)
  read_documents exported = elim exported.documents [
    | none ↦ throw unsupported_page
    | some documents ↦ return documents
  ]

  -- The variables after the documents of one export.
  abbrev pub with_documents : Progress Page → List Page → ℕ → Progress Page
  with_documents p documents batch_count = record p {
    seen_page_ids = p.seen_page_ids ++ map page_id documents;
    page_count = p.page_count + length documents;
    batch_count = batch_count;
    exported = p.exported ++ documents;
  }

  unfoldable pub ingest_export : Progress Page → Exported Page → SyncTask (Progress Page)
  unfolding send_batches
  ingest_export p exported = do
    documents ← read_documents exported
    if has_duplicate p.seen_page_ids (map page_id documents)
        then throw duplicate_page
        else if ltb settings.novo_export_max_pages (p.page_count + length documents)
        then throw export_limit_exceeded
        else (do
          let yielded = partition_page_batches page_bytes settings.ingest_batch_max_bytes documents
          batch_count ← send_batches p.batch_count yielded.0
          lift yielded.1
          return (with_documents p documents batch_count))

  abbrev pub next_cursor : Progress Page → Option String → SyncTask (Progress Page)
  next_cursor p none = throw invalid_cursor
  next_cursor p (some cursor) =
      if contains p.seen_cursors cursor
      then throw invalid_cursor
      else return (record p { seen_cursors = p.seen_cursors ++ cursor ∷ []; cursor = some cursor })

  -- The loop, with the page requests that are left.
  unfoldable pub export_all : (requests : ℕ) → Progress Page → SyncTask (Progress Page)
  unfolding ingest_export
  export_all zero p = throw export_limit_exceeded
  export_all (suc requests) p = do
    exported ← export_pages p.cursor
    p' ← ingest_export p exported
    if exported.complete
        then return p'
        else (do p'' ← next_cursor p' exported.next_cursor; export_all requests p'')

  abbrev pub first_progress : Progress Page
  first_progress = record {
    cursor = none;
    seen_cursors = [];
    seen_page_ids = [];
    page_count = 0;
    batch_count = 0;
    exported = [];
  }

  unfoldable pub export_and_ingest : SyncTask ExportSummary
  unfolding export_all
  export_and_ingest = do
    p ← export_all settings.novo_export_max_batches first_progress
    let checksum = document_checksum p.exported
    finalized ←
        ingest_finalize
          (idempotency_key "ingest-finalize" (p.page_count ∷ p.batch_count ∷ []) checksum) checksum
          p.page_count p.batch_count
    job ← wait_for_job job_status polls finalized "ingest_finalize"
    return (record {
      notebook_id = notebook_id;
      page_count = p.page_count;
      batch_count = p.batch_count;
      document_checksum = checksum;
    })
