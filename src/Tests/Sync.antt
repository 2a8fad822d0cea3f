-- ===== src/Tests/Sync.antt =====
-- novo_chat/gateway/sync.py: a notebook of three pages, in two exports.
use Prim.Native.String.{◌++◌ as append_text}
use novo_chat.Base.{ℕ, zero, suc, ◌≡◌, ◌+◌, refl, true, false, none, some, List, [], ◌∷◌, ◌++◌, map}
use mathlib.Core.List.{append_assoc}
use novo_chat.Base.Result.{ok, err}
use novo_chat.Base.Action.{Post}
use novo_chat.Gateway.Sync.{export_limit_exceeded}
use novo_chat.Gateway.Sync.Batches.{partition_page_batches, partition_from}
use novo_chat.Gateway.Sync.Batches.Exact.{Partitions, partition_page_batches-Partitions}
use novo_chat.Gateway.Sync.Missing.{missing_scope}
use novo_chat.Gateway.Sync.Missing.Worker.{status_row, missing_scope-index_status}
use novo_chat.Jobs.{Store}
use novo_chat.Jobs.Catalog.{activate_index, upsert_index, active_index, find_index}
use novo_chat.Protocol.Types.{NotebookScope}
use novo_chat.Worker.{ArtifactStatus}
use novo_chat.Worker.Endpoints.{index_status}
use novo_chat.Tests.Worker.{config, parts}
use novo_chat.Gateway.Sync.Polling.{Job, wait_for_job}
use novo_chat.Gateway.Sync.Polling.Done.{IsDone, wait_for_job-IsDone}
use novo_chat.Gateway.Sync.Export.{Clients, Settings, export_and_ingest}
use novo_chat.Gateway.Sync.Export.Bounded.{logged, Sent, export_and_ingest-Sent}
use novo_chat.Gateway.Sync.Checksum.{Hashlib, new_checksum, digest_of}
use novo_chat.Gateway.Sync.Checksum.Whole.{add_all, digest_of-add_all}
use novo_chat.Tests.Jobs.{test_lib, notebook, newer, full_store}

partition_page_batches-Partitions_example :
    Partitions
      (λ n. n)
      10
      (3 ∷ 4 ∷ 5 ∷ 9 ∷ [])
      (partition_page_batches (λ n. n) 10 (3 ∷ 4 ∷ 5 ∷ 9 ∷ []))
partition_page_batches-Partitions_example =
    partition_page_batches-Partitions (λ n. n) 10 (3 ∷ 4 ∷ 5 ∷ 9 ∷ [])

-- The last page is too large by itself.
partition_large :
    partition_page_batches (λ n. n) 10 (3 ∷ 4 ∷ 5 ∷ 9 ∷ [])
    ≡ ((3 ∷ 4 ∷ []) ∷ (5 ∷ []) ∷ [], err export_limit_exceeded)
unfolding partition_page_batches partition_from
partition_large = refl

-- One of two revisions has an active index.
abbrev indexed : Store test_lib
indexed = activate_index test_lib notebook "production" "a1" 1 full_store

missing_scope-index_status_example :
    (answer : List (NotebookScope × ArtifactStatus)) × (index_status test_lib parts config
        (some "req7")
        "req7"
        (notebook ∷ newer ∷ [])
        indexed
      ≡ (ok answer, indexed))
    × (missing_scope (notebook ∷ newer ∷ []) (some (map status_row answer)) ≡ ok (newer ∷ []))
unfolding activate_index upsert_index active_index find_index
missing_scope-index_status_example =
    missing_scope-index_status test_lib parts config "req7" (notebook ∷ newer ∷ []) indexed refl
      refl refl

abbrev done_job : Job
done_job = record { job_id = "job1"; operation = "ingest_batch"; state = "succeeded" }

abbrev queued_job : Job
queued_job = record done_job { state = "queued" }

wait_for_job-IsDone_example :
    Post
      (IsDone (λ id n. (ok done_job, n + 1)) "job1" "ingest_batch")
      (wait_for_job (λ id n. (ok done_job, n + 1)) 2 queued_job "ingest_batch" 0)
wait_for_job-IsDone_example =
    wait_for_job-IsDone (λ id n. (ok done_job, n + 1)) 2 queued_job "ingest_batch" 0

wait_returns :
    wait_for_job (λ id n. (ok done_job, n + 1)) 2 queued_job "ingest_batch" 0 ≡ (ok done_job, 1)
unfolding wait_for_job
wait_returns = refl

-- Each request takes a tick; a page is its bytes.
abbrev clients : Clients ℕ ℕ
clients = record {
  notebook_id = "nb1";
  page_id = λ n. elim n [ zero ↦ "zero" | suc m ↦ elim m [ zero ↦ "one" | suc _ ↦ "more" ] ];
  page_bytes = λ n. n;
  batch_checksum = λ batch. "batch";
  document_checksum = λ pages. "document";
  idempotency_key = λ operation numbers checksum. operation;
  export_pages = λ cursor t. elim cursor [
    | none ↦ (
      ok (record { documents = some (0 ∷ 1 ∷ []); complete = false; next_cursor = some "next" }),
      suc t,
    )
    | some _ ↦
        (ok (record { documents = some (4 ∷ []); complete = true; next_cursor = none }), suc t)
  ];
  ingest_batch = λ key number batch t. (ok done_job, suc t);
  ingest_finalize = λ key checksum pages batches t.
      (ok (record done_job { operation = "ingest_finalize" }), suc t);
  job_status = λ id t. (ok done_job, suc t);
}

abbrev settings : Settings
settings = record {
  novo_export_max_batches = 3;
  novo_export_max_pages = 3;
  ingest_batch_max_bytes = 6;
}

export_and_ingest-Sent_example :
    Post
      (λ summary s.
        (pages : List ℕ) × Sent clients settings 5 summary.page_count summary.batch_count pages s.1
        × (summary.document_checksum ≡ "document")
        × (summary.notebook_id ≡ "nb1"))
      (export_and_ingest (logged clients) settings 5 (0, []))
export_and_ingest-Sent_example = export_and_ingest-Sent clients settings 5 0

export_returns : export_and_ingest (logged clients) settings 5 (0, []) ≡ (
  ok (record {
    notebook_id = "nb1";
    page_count = 3;
    batch_count = 2;
    document_checksum = "document";
  }),
  (5, (0, 0 ∷ 1 ∷ []) ∷ (1, 4 ∷ []) ∷ []),
)
unfolding export_and_ingest partition_page_batches partition_from wait_for_job
export_returns = refl

-- A hash object is the bytes that it has hashed.
abbrev bytes_lib : Hashlib
bytes_lib = record {
  Hash = List ℕ;
  sha256 = [];
  update = λ h a. h ++ a;
  hexdigest = λ h. elim h [ [] ↦ "" | b ∷ rest ↦ "digest" ];
}

digest_of-add_all_example :
    digest_of bytes_lib
      (λ (n : ℕ). n ∷ [])
      (add_all bytes_lib
        (λ n. n ∷ [])
        (new_checksum bytes_lib (λ n. n ∷ []))
        ((1 ∷ 2 ∷ []) ∷ (3 ∷ []) ∷ []))
    ≡ append_text "sha256:" "digest"
digest_of-add_all_example =
    digest_of-add_all bytes_lib (λ (n : ℕ). n ∷ []) (λ h a b. append_assoc h a b)
      ((1 ∷ 2 ∷ []) ∷ (3 ∷ []) ∷ [])
