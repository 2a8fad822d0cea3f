-- ===== src/Tests/Ingest.antt =====
-- novo_chat/documents.py: a notebook of two batches.
use novo_chat.Base.{String, ◌+◌, ◌≡◌, refl, true, none, List, [], ◌∷◌, length, arith}
use novo_chat.Base.Result.{ok}
use novo_chat.Protocol.Types.{NotebookScope}
use novo_chat.Documents.{
  Pages, DocumentStore, FinalizedDocument, find_document, stage_batch, finalize, load,
}
use novo_chat.Documents.Kept.{load-finalize, document_of}
use novo_chat.Documents.Quota.{Call, stage, finish, after, run, WithinQuota, run-WithinQuota}

-- A page is its id.
abbrev pub pages : Pages
pages = record {
  Page = String;
  page_id = λ p. p;
  checksum = λ ps. elim ps [ [] ↦ "none" | p ∷ rest ↦ p ];
  scope_key = λ scope. scope.notebook_id;
  batch_size = λ scope n ck ps. 10 + length ps;
  document_size = λ scope ck n ps. 20 + length ps;
  same_pages = λ a b. true;
}

abbrev notebook : NotebookScope
notebook = record { notebook_id = "nb1"; content_revision = "r1"; index_schema_version = "v1" }

abbrev pub empty : DocumentStore pages
empty = record { max_bytes = 60; bytes_used = 0; staging = []; finalized = [] }

abbrev batches : List (Call pages)
batches = stage notebook 0 "p1" ("p1" ∷ "p2" ∷ []) ∷ stage notebook 1 "p3" ("p3" ∷ []) ∷ []

abbrev staged : DocumentStore pages
staged = run pages batches empty

abbrev final_store : DocumentStore pages
final_store = run pages (finish notebook "p1" 3 2 ∷ []) staged

abbrev document : FinalizedDocument pages
document = document_of pages notebook "p1" ("p1" ∷ "p2" ∷ "p3" ∷ [])

finalized : finalize pages notebook "p1" 3 2 staged ≡ ok (document, final_store)
unfolding run finalize after stage_batch
finalized = refl

nothing_finalized : find_document pages "nb1" staged ≡ none
unfolding run after stage_batch
nothing_finalized = refl

load-finalize_example : load pages notebook final_store ≡ ok document
load-finalize_example =
    load-finalize pages notebook "p1" 3 2 staged final_store document nothing_finalized finalized

abbrev calls : List (Call pages)
calls =
    stage notebook 0 "p1" ("p1" ∷ "p2" ∷ [])
    ∷ stage notebook 1 "p3" ("p3" ∷ [])
    ∷ finish notebook "p1" 3 2
    ∷ []

run-WithinQuota_example : WithinQuota pages 60 (run pages calls empty)
run-WithinQuota_example = run-WithinQuota pages 60 calls empty (refl, omega arith, refl)
