-- ===== src/Documents.antt =====
-- novo_chat/documents.py: DocumentStore. The directory tree is the list of its batch files and of its
-- finalized documents, each read back as it was written; the pages, their ids and checksums, the key
-- of a scope and the length of a file's canonical JSON are parameters.
pub mod Kept
pub mod Quota
use novo_chat.Base.{
  ℕ, zero, suc, String, ◌+◌, ◌-◌, Bool, true, false, not, ◌&&◌, ◌||◌, Option, none, some, List, [],
  ◌∷◌, ◌++◌, ◌==◌, ◌!=◌, nat_eq, string_eq, ltb, all, contains, distinct, map, length, keep_if,
  find_first, if◌then◌else◌,
}
use novo_chat.Base.Result.{Result, ok, err, ◌>>=◌, ◌>>◌, raise_if}
use novo_chat.Protocol.Types.{NotebookScope, scope_eq}

pub data DocumentError : Type 0 where
  checksum_mismatch ingest_batch_conflict storage_quota_exceeded document_store_corrupt :
      DocumentError
  ingest_batches_incomplete duplicate_page page_count_mismatch : DocumentError
  document_checksum_mismatch content_revision_conflict document_not_finalized : DocumentError

-- PageDocument and its digest, `_scope_key`, and the sizes of the two payloads.
pub record Pages : Type 1 where
  pub Page : Type 0
  pub page_id : Page → String
  pub checksum : List Page → String
  pub scope_key : NotebookScope → String
  pub batch_size : NotebookScope → ℕ → String → List Page → ℕ
  pub document_size : NotebookScope → String → ℕ → List Page → ℕ
  pub same_pages : List Page → List Page → Bool

-- `range(start, start + count)`
unfoldable pub range : (start count : ℕ) → List ℕ
range start zero = []
range start (suc count) = start ∷ range (suc start) count

abbrev pub fetch : {A : Type 0} → DocumentError → Option A → Result DocumentError A
fetch e none = err e
fetch e (some a) = ok a

module _ (lib : Pages) where
  open lib use {Page, page_id, checksum, scope_key, batch_size, document_size, same_pages}

  -- A file of `staging/<key>`, by the number in its name, and its payload.
  pub record BatchFile : Type 0 where
    pub key : String
    pub number : ℕ
    pub scope : NotebookScope
    pub batch_number : ℕ
    pub batch_checksum : String
    pub pages : List Page

  pub record FinalizedDocument : Type 0 where
    pub scope : NotebookScope
    pub document_checksum : String
    pub pages : List Page

  pub record DocumentStore : Type 0 where
    pub max_bytes : ℕ
    pub bytes_used : ℕ
    pub staging : List BatchFile
    -- with the `batchCount` of the file
    pub finalized : List (String × FinalizedDocument × ℕ)

  -- `_ensure_capacity`, for a size that is not negative
  abbrev pub over_quota : ℕ → DocumentStore → Bool
  over_quota additional_bytes store = ltb store.max_bytes (store.bytes_used + additional_bytes)

  abbrev pub is_file : String → ℕ → BatchFile → Bool
  is_file key number file = file.key == key && file.number == number

  abbrev pub same_payload : BatchFile → BatchFile → Bool
  same_payload a b =
      a.scope == b.scope
      && a.batch_number == b.batch_number
      && a.batch_checksum == b.batch_checksum
      && same_pages a.pages b.pages

  abbrev pub size_of : BatchFile → ℕ
  size_of file = batch_size file.scope file.batch_number file.batch_checksum file.pages

  abbrev pub new_file : NotebookScope → ℕ → String → List Page → BatchFile
  new_file scope number batch_checksum pages = record {
    key = scope_key scope;
    number = number;
    scope = scope;
    batch_number = number;
    batch_checksum = batch_checksum;
    pages = pages;
  }

  -- The write of a batch that has no file yet, or the test of the file that it has.
  unfoldable pub write_batch :
      BatchFile → Option BatchFile → DocumentStore → Result DocumentError (ℕ × DocumentStore)
  write_batch file (some existing) store = do
    raise_if (not (same_payload existing file)) ingest_batch_conflict
    ok (length file.pages, store)
  write_batch file none store = do
    raise_if (over_quota (size_of file) store) storage_quota_exceeded
    ok (
      length file.pages,
      record store {
        staging = store.staging ++ file ∷ [];
        bytes_used = store.bytes_used + size_of file;
      },
    )

  unfoldable pub stage_batch :
      NotebookScope
      → ℕ
      → String
      → List Page
      → DocumentStore
      → Result DocumentError (ℕ × DocumentStore)
  unfolding write_batch
  stage_batch scope number batch_checksum pages store = do
    raise_if (checksum pages != batch_checksum) checksum_mismatch
    write_batch (new_file scope number batch_checksum pages)
        (find_first (is_file (scope_key scope) number) store.staging) store

  -- `present_numbers == expected_numbers`
  unfoldable pub is_complete : String → ℕ → List BatchFile → Bool
  unfolding range
  is_complete key batch_count files =
      let present = map (λ f. f.number) (keep_if (λ f. f.key == key) files) in
      all (λ n. ltb n batch_count) present && all (contains present) (range 0 batch_count)

  -- The loop of `finalize` over the batches.
  unfoldable pub read_batches :
      NotebookScope → List BatchFile → List ℕ → Result DocumentError (List Page)
  read_batches scope files [] = ok []
  read_batches scope files (n ∷ numbers) = do
    file ← fetch document_store_corrupt (find_first (is_file (scope_key scope) n) files)
    raise_if (file.scope != scope || file.batch_number != n) document_store_corrupt
    raise_if (checksum file.pages != file.batch_checksum) document_store_corrupt
    rest ← read_batches scope files numbers
    ok (file.pages ++ rest)

  abbrev pub find_document : String → DocumentStore → Option (String × FinalizedDocument × ℕ)
  find_document key store = find_first (λ d. d.0 == key) store.finalized

  unfoldable pub write_document :
      FinalizedDocument
      → ℕ
      → Option (String × FinalizedDocument × ℕ)
      → DocumentStore
      → Result DocumentError DocumentStore
  write_document document batch_count (some existing) store = do
    raise_if (existing.1.document_checksum != document.document_checksum) content_revision_conflict
    ok store
  write_document document batch_count none store = do
    let size = document_size document.scope document.document_checksum batch_count document.pages
    raise_if (over_quota size store) storage_quota_exceeded
    ok (record store {
      finalized = store.finalized ++ (scope_key document.scope, document, batch_count) ∷ [];
      bytes_used = store.bytes_used + size;
    })

  abbrev pub sum_sizes : List BatchFile → ℕ
  sum_sizes [] = 0
  sum_sizes (f ∷ files) = size_of f + sum_sizes files

  -- The removal of the staging directory.
  abbrev pub clear_staging : String → DocumentStore → DocumentStore
  clear_staging key store = record store {
    staging = keep_if (λ f. f.key != key) store.staging;
    bytes_used = store.bytes_used - sum_sizes (keep_if (λ f. f.key == key) store.staging);
  }

  unfoldable pub finalize :
      NotebookScope
      → String
      → (page_count batch_count : ℕ) → DocumentStore
      → Result DocumentError (FinalizedDocument × DocumentStore)
  unfolding is_complete read_batches write_document
  finalize scope document_checksum page_count batch_count store = do
    raise_if (not (is_complete (scope_key scope) batch_count store.staging))
        ingest_batches_incomplete
    pages ← read_batches scope store.staging (range 0 batch_count)
    raise_if (not (distinct (map page_id pages))) duplicate_page
    raise_if (length pages != page_count) page_count_mismatch
    raise_if (checksum pages != document_checksum) document_checksum_mismatch
    let document : FinalizedDocument = record {
      scope = scope;
      document_checksum = document_checksum;
      pages = pages;
    }
    store' ← write_document document batch_count (find_document (scope_key scope) store) store
    ok (document, clear_staging (scope_key scope) store')

  unfoldable pub load : NotebookScope → DocumentStore → Result DocumentError FinalizedDocument
  load scope store = do
    found ← fetch document_not_finalized (find_document (scope_key scope) store)
    raise_if (found.1.scope != scope || found.1.document_checksum != checksum found.1.pages)
        document_store_corrupt
    ok found.1
