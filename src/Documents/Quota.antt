-- ===== src/Documents/Quota.antt =====
-- novo_chat/documents.py: sequences of `stage_batch` and `finalize`, and the byte quota.
use novo_chat.Base.{
  ℕ, String, ◌+◌, ◌≤◌, ◌≡◌, ap, inl, inr, false, not, ◌!=◌, string_eq, Option, none, some, List,
  ◌∷◌, [], ◌++◌, ◌==◌, refl, Bool-cases, keep_if, arith,
}
use novo_chat.Base.Result.{ok, err, ok-injective, raise_if-eq-ok, Result-cases}
use novo_chat.Protocol.Types.{NotebookScope}
use novo_chat.Documents.{
  Pages, BatchFile, FinalizedDocument, DocumentStore, storage_quota_exceeded, over_quota, size_of,
  write_document, write_batch, stage_batch, finalize, new_file, sum_sizes, clear_staging,
  content_revision_conflict, ingest_batch_conflict, checksum_mismatch, same_payload,
}
use novo_chat.Documents.Kept.{finalize-ok}

-- The calls of the ingest.
module _ (lib : Pages) where
  open lib use {Page, checksum, scope_key, document_size}

  pub data Call : Type 0 where
    stage : NotebookScope → ℕ → String → List Page → Call
    finish : NotebookScope → String → ℕ → ℕ → Call

  -- A call that raises has written nothing.
  unfoldable pub after : Call → DocumentStore lib → DocumentStore lib
  after (stage scope number ck pages) store = elim (stage_batch lib scope number ck pages store) [
    | err _ ↦ store
    | ok out ↦ out.1
  ]
  after (finish scope ck page_count batch_count) store =
      elim (finalize lib scope ck page_count batch_count store) [ err _ ↦ store | ok out ↦ out.1 ]

  unfoldable pub run : List Call → DocumentStore lib → DocumentStore lib
  run [] store = store
  run (call ∷ calls) store = run calls (after call store)

  abbrev document_sizes : List (String × FinalizedDocument lib × ℕ) → ℕ
  document_sizes [] = 0
  document_sizes ((key, document, batch_count) ∷ finalized) =
      document_size document.scope document.document_checksum batch_count document.pages
      + document_sizes finalized

  -- The bytes of all files of the store.
  abbrev pub stored_bytes : DocumentStore lib → ℕ
  stored_bytes store = sum_sizes lib store.staging + document_sizes store.finalized

  -- The counter is the number of bytes stored, which is within the quota given at first.
  abbrev pub WithinQuota : ℕ → DocumentStore lib → Type 0
  WithinQuota quota store =
      (store.bytes_used ≡ stored_bytes store)
      × (stored_bytes store ≤ quota)
      × (store.max_bytes ≡ quota)

  sum_sizes-append :
      (files more : List (BatchFile lib))
      → sum_sizes lib (files ++ more) ≡ sum_sizes lib files + sum_sizes lib more
  sum_sizes-append [] more = omega arith
  sum_sizes-append (f ∷ files) more = let rest = sum_sizes-append files more in omega (arith, rest)

  document_sizes-append :
      (finalized more : List (String × FinalizedDocument lib × ℕ))
      → document_sizes (finalized ++ more) ≡ document_sizes finalized + document_sizes more
  document_sizes-append [] more = omega arith
  document_sizes-append (d ∷ finalized) more =
      let rest = document_sizes-append finalized more in omega (arith, rest)

  -- The files of a directory and the others are all files.
  sum_sizes-split :
      (key : String) (files : List (BatchFile lib))
      → sum_sizes lib (keep_if (λ f. f.key == key) files)
          + sum_sizes lib (keep_if (λ f. f.key != key) files)
        ≡ sum_sizes lib files
  sum_sizes-split key [] = refl
  sum_sizes-split key (f ∷ files) =
      let rest = sum_sizes-split key files in
      elim (Bool-cases (f.key == key)) [
        | inl e ↦ rw e (omega (arith, rest))
        | inr e ↦ rw e (omega (arith, rest))
      ]

  fits :
      (quota n : ℕ) (store : DocumentStore lib)
      → WithinQuota quota store
      → over_quota lib n store ≡ false
      → store.bytes_used + n ≤ quota
  fits quota n store h k = ground arith

  write_batch-WithinQuota :
      (quota : ℕ) (file : BatchFile lib) (found : Option (BatchFile lib))
      (store : DocumentStore lib) {out : ℕ × DocumentStore lib}
      → WithinQuota quota store
      → write_batch lib file found store ≡ ok out
      → WithinQuota quota out.1
  unfolding write_batch
  write_batch-WithinQuota quota file (some existing) store h e =
      let (_, e1) =
        raise_if-eq-ok (not (same_payload lib existing file)) ingest_batch_conflict _ e in
      rw (← ok-injective e1) h
  write_batch-WithinQuota quota file none store h e =
      let (room, e1) =
        raise_if-eq-ok (over_quota lib (size_of lib file) store) storage_quota_exceeded _ e in
      let room' = fits quota (size_of lib file) store h room in
      let more = sum_sizes-append store.staging (file ∷ []) in
      rw (← ok-injective e1) (omega (arith, h.0, more), omega (arith, h.0, room', more), h.2)

  write_document-WithinQuota :
      (quota : ℕ) (document : FinalizedDocument lib) (batch_count : ℕ)
      (found : Option (String × FinalizedDocument lib × ℕ)) (store : DocumentStore lib)
      {written : DocumentStore lib}
      → WithinQuota quota store
      → write_document lib document batch_count found store ≡ ok written
      → WithinQuota quota written
  unfolding write_document
  write_document-WithinQuota quota document batch_count (some existing) store h e =
      let (_, e1) =
        raise_if-eq-ok (existing.1.document_checksum != document.document_checksum)
          content_revision_conflict _ e in
      rw (← ok-injective e1) h
  write_document-WithinQuota quota document batch_count none store h e =
      let size =
        document_size document.scope document.document_checksum batch_count document.pages in
      let (room, e1) = raise_if-eq-ok (over_quota lib size store) storage_quota_exceeded _ e in
      let room' = fits quota size store h room in
      let more =
        document_sizes-append store.finalized
          ((scope_key document.scope, document, batch_count) ∷ []) in
      rw (← ok-injective e1) (omega (arith, h.0, more), omega (arith, h.0, room', more), h.2)

  stage_batch-WithinQuota :
      (quota : ℕ) (scope : NotebookScope) (number : ℕ) (ck : String) (pages : List Page)
      (store : DocumentStore lib) {out : ℕ × DocumentStore lib}
      → WithinQuota quota store
      → stage_batch lib scope number ck pages store ≡ ok out
      → WithinQuota quota out.1
  unfolding stage_batch
  stage_batch-WithinQuota quota scope number ck pages store h e =
      let (_, e1) = raise_if-eq-ok (checksum pages != ck) checksum_mismatch _ e in
      write_batch-WithinQuota quota (new_file lib scope number ck pages) _ store h e1

  clear_staging-WithinQuota :
      (quota : ℕ) (key : String) (store : DocumentStore lib)
      → WithinQuota quota store
      → WithinQuota quota (clear_staging lib key store)
  clear_staging-WithinQuota quota key store h =
      let split = sum_sizes-split key store.staging in
      (omega (arith, h.0, split), omega (arith, h.1, split), h.2)

  finalize-WithinQuota :
      (quota : ℕ) (scope : NotebookScope) (ck : String) (page_count batch_count : ℕ)
      (store : DocumentStore lib) {out : FinalizedDocument lib × DocumentStore lib}
      → WithinQuota quota store
      → finalize lib scope ck page_count batch_count store ≡ ok out
      → WithinQuota quota out.1
  finalize-WithinQuota quota scope ck page_count batch_count store h e =
      let f = finalize-ok lib scope ck page_count batch_count store e in
      let w = write_document-WithinQuota quota _ batch_count _ store h f.write in
      rw (← ap (λ r. r.1) f.result) (clear_staging-WithinQuota quota (scope_key scope) f.written w)

  after-WithinQuota :
      (quota : ℕ) (call : Call) (store : DocumentStore lib)
      → WithinQuota quota store
      → WithinQuota quota (after call store)
  unfolding after
  after-WithinQuota quota (stage scope number ck pages) store h =
      elim (Result-cases (stage_batch lib scope number ck pages store)) [
        | inl (out, e) ↦
            rw (after, e) (stage_batch-WithinQuota quota scope number ck pages store h e)
        | inr (_, e) ↦ rw (after, e) h
      ]
  after-WithinQuota quota (finish scope ck page_count batch_count) store h =
      elim (Result-cases (finalize lib scope ck page_count batch_count store)) [
        | inl (out, e) ↦
            rw (after, e) (finalize-WithinQuota quota scope ck page_count batch_count store h e)
        | inr (_, e) ↦ rw (after, e) h
      ]

  -- From a store within its quota, whose counter is the number of its bytes, any batches and finalizations, those that
  -- raise included, leave the counter at the number of bytes stored, and that within the same quota.
  pub run-WithinQuota :
      (quota : ℕ) (calls : List Call) (store : DocumentStore lib)
      → WithinQuota quota store
      → WithinQuota quota (run calls store)
  unfolding run
  run-WithinQuota quota [] store h = h
  run-WithinQuota quota (call ∷ calls) store h =
      run-WithinQuota quota calls (after call store) (after-WithinQuota quota call store h)
