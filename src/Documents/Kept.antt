-- ===== src/Documents/Kept.antt =====
-- novo_chat/documents.py: `load` after `finalize`.
use novo_chat.Base.{
  ℕ, String, ◌≡◌, refl, sym, ap, ◌∙◌, not, none, some, List, [], ◌∷◌, ◌++◌, ◌==◌, ◌!=◌, nat_eq,
  string_eq, eq_iff, find_first, find_first-append, not-eq-false, distinct, map, length,
}
use novo_chat.Base.Result.{ok, ok-injective, raise_if-eq-ok, >>=-eq-ok}
use novo_chat.Protocol.Types.{NotebookScope, scope_eq}
use novo_chat.Documents.{
  Pages, FinalizedDocument, DocumentStore, storage_quota_exceeded, document_checksum_mismatch,
  duplicate_page, page_count_mismatch, ingest_batches_incomplete, over_quota, is_complete,
  read_batches, write_document, find_document, clear_staging, finalize, load, range,
}

module _ (lib : Pages) where
  open lib use {page_id, checksum, scope_key}
  open lib use {Page, document_size}

  abbrev pub document_of : NotebookScope → String → List Page → FinalizedDocument lib
  document_of scope ck pages = record { scope = scope; document_checksum = ck; pages = pages }

  -- What a `finalize` that returned has tested and written.
  pub record Finalized (scope : NotebookScope) (ck : String) (batch_count : ℕ)
      (store : DocumentStore lib) (out : FinalizedDocument lib × DocumentStore lib) : Type 0 where
    pub pages : List Page
    pub written : DocumentStore lib
    pub checked : checksum pages ≡ ck
    pub write :
        write_document lib
          (document_of scope ck pages)
          batch_count
          (find_document lib (scope_key scope) store)
          store
        ≡ ok written
    pub result :
        ◌≡◌ {A = FinalizedDocument lib × DocumentStore lib}
          (document_of scope ck pages, clear_staging lib (scope_key scope) written)
          out

  pub finalize-ok :
      (scope : NotebookScope) (ck : String) (page_count batch_count : ℕ) (store : DocumentStore lib)
      {out : FinalizedDocument lib × DocumentStore lib}
      → finalize lib scope ck page_count batch_count store ≡ ok out
      → Finalized scope ck batch_count store out
  unfolding finalize
  finalize-ok scope ck page_count batch_count store {out} h =
      let (_, h1) =
        raise_if-eq-ok (not (is_complete lib (scope_key scope) batch_count store.staging))
          ingest_batches_incomplete _ h in
      let (pages, _, h2) =
        >>=-eq-ok (read_batches lib scope store.staging (range 0 batch_count)) _ h1 in
      let (_, h3) = raise_if-eq-ok (not (distinct (map page_id pages))) duplicate_page _ h2 in
      let (_, h4) = raise_if-eq-ok (length pages != page_count) page_count_mismatch _ h3 in
      let (same, h5) = raise_if-eq-ok (checksum pages != ck) document_checksum_mismatch _ h4 in
      let (written, w, h6) =
        >>=-eq-ok
          (write_document lib _ batch_count (find_document lib (scope_key scope) store) store) _
          h5 in
      record {
        pages = pages;
        written = written;
        checked = (eq_iff (checksum pages) ck).0 (not-eq-false (checksum pages == ck) same);
        write = w;
        result = ok-injective h6;
      }

  written-new :
      (document : FinalizedDocument lib) (batch_count : ℕ) (store : DocumentStore lib)
      {written : DocumentStore lib}
      → write_document lib document batch_count none store ≡ ok written
      → written.finalized
        ≡ store.finalized ++ (scope_key document.scope, document, batch_count) ∷ []
  unfolding write_document
  written-new document batch_count store h =
      let (_, h1) =
        raise_if-eq-ok
          (over_quota lib
            (document_size document.scope document.document_checksum batch_count document.pages)
            store)
          storage_quota_exceeded _ h in
      ap (λ (st : DocumentStore lib). st.finalized) (sym (ok-injective h1))

  found-itself :
      (scope : NotebookScope) (ck : String) (pages : List Page) (batch_count : ℕ)
      → find_first {A = String × FinalizedDocument lib × ℕ}
          (λ d. d.0 == scope_key scope)
          ((scope_key scope, document_of scope ck pages, batch_count) ∷ [])
        ≡ some (scope_key scope, document_of scope ck pages, batch_count)
  found-itself scope ck pages batch_count =
      rw ((eq_iff (scope_key scope) (scope_key scope)).1 refl) refl

  load-found :
      (scope : NotebookScope) (ck : String) (pages : List Page) (batch_count : ℕ)
      (store : DocumentStore lib)
      → find_document lib (scope_key scope) store
        ≡ some (scope_key scope, document_of scope ck pages, batch_count)
      → checksum pages ≡ ck
      → load lib scope store ≡ ok (document_of scope ck pages)
  unfolding load
  load-found scope ck pages batch_count store found checked =
      rw (found, (scope_eq.equal_iff scope scope).1 refl, checked, (eq_iff ck ck).1 refl) refl

  -- A document that `finalize` returned, for a scope with no finalized document before, is what `load`
  -- of the scope returns afterwards.
  pub load-finalize :
      (scope : NotebookScope) (ck : String) (page_count batch_count : ℕ)
      (store store' : DocumentStore lib) (document : FinalizedDocument lib)
      → find_document lib (scope_key scope) store ≡ none
      → finalize lib scope ck page_count batch_count store ≡ ok (document, store')
      → load lib scope store' ≡ ok document
  unfolding load
  load-finalize scope ck page_count batch_count store store' document new h =
      let f = finalize-ok scope ck page_count batch_count store h in
      let write =
        ap (λ d. write_document lib (document_of scope ck f.pages) batch_count d store) (sym new)
        ∙ f.write in
      let table = written-new (document_of scope ck f.pages) batch_count store write in
      let found : find_document lib (scope_key scope) f.written
          ≡ some (scope_key scope, document_of scope ck f.pages, batch_count) =
        ap (find_first {A = String × FinalizedDocument lib × ℕ} (λ d. d.0 == scope_key scope)) table
        ∙ find_first-append {A = String × FinalizedDocument lib × ℕ} (λ d. d.0 == scope_key scope)
            store.finalized _ new
        ∙ found-itself scope ck f.pages batch_count in
      ap (load lib scope) (sym (ap (λ r. r.1) f.result))
      ∙ load-found scope ck f.pages batch_count (clear_staging lib (scope_key scope) f.written)
          found f.checked
      ∙ ap (λ r. ok (r.0)) f.result
