-- ===== src/Gateway/Sync/Export/Bounded.antt =====
-- novo_chat/gateway/sync.py: the batches that `_export_and_ingest` sends, in a log beside the world.
use novo_chat.Base.{
  ℕ, zero, suc, String, ◌+◌, ◌≤◌, ◌≡◌, refl, sym, ap, ◌∙◌, false, not, ◌||◌, Option, none, some,
  List, [], ◌∷◌, ◌++◌, map, length, length-append, ltb, contains, string_eq, All, arith,
  Option-cases, inl, inr, ◌==◌, ◌!=◌,
}
use mathlib.Core.List.{append_assoc, append-nil}
use novo_chat.Base.Result.{Result, ok, err, err-ne-ok}
use novo_chat.Base.Action.{Action, Post, Post-continue, Post-if, Post-mono, continue, return, throw}
use novo_chat.Gateway.Sync.{SyncError, synchronization_timeout}
use novo_chat.Gateway.Sync.Batches.{partition_page_batches}
use novo_chat.Gateway.Sync.Batches.Exact.{
  IsSendable, concat, Partitions, partition_page_batches-Partitions,
}
use novo_chat.Gateway.Sync.Polling.{
  Job, poll, wait_for_job, by_state, is_success, is_failure, is_pending,
}
use novo_chat.Gateway.Sync.Export.{
  Settings, Exported, Clients, Progress, send_batches, has_duplicate, read_documents,
  with_documents, ingest_export, next_cursor, export_all, first_progress, export_and_ingest, lift,
}

abbrev pub Log : Type 0 → Type 0
Log Page = List (ℕ × List Page)

-- The clients, with each batch that they send in the log under its number.
abbrev pub logged : {Page World : Type 0} → Clients Page World → Clients Page (World × Log Page)
logged clients = record {
  notebook_id = clients.notebook_id;
  page_id = clients.page_id;
  page_bytes = clients.page_bytes;
  batch_checksum = clients.batch_checksum;
  document_checksum = clients.document_checksum;
  idempotency_key = clients.idempotency_key;
  export_pages =
      λ cursor (w, log). let (answer, w') = clients.export_pages cursor w in (answer, (w', log));
  ingest_batch = λ key number batch (w, log).
      let (answer, w') = clients.ingest_batch key number batch w in
      (answer, (w', log ++ (number, batch) ∷ []));
  ingest_finalize = λ key checksum pages batches (w, log).
      let (answer, w') = clients.ingest_finalize key checksum pages batches w in
      (answer, (w', log));
  job_status = λ id (w, log). let (answer, w') = clients.job_status id w in (answer, (w', log));
}

module _ {Page : Type 0} where
  -- Batches under consecutive numbers.
  abbrev pub numbered : ℕ → List (List Page) → Log Page
  numbered n [] = []
  numbered n (batch ∷ batches) = (n, batch) ∷ numbered (n + 1) batches

  numbered-append :
      (n : ℕ) (xs ys : List (List Page))
      → numbered n (xs ++ ys) ≡ numbered n xs ++ numbered (n + length xs) ys
  numbered-append n [] ys = ap (λ t. numbered t ys) (omega arith)
  numbered-append n (x ∷ xs) ys =
      ap (λ t. (n, x) ∷ t)
        (numbered-append (n + 1) xs ys
          ∙ ap (λ t. numbered (n + 1) xs ++ numbered t ys) (omega arith))

  All-append {κ} :
      (P : List Page → Type κ) (xs ys : List (List Page)) → All P xs → All P ys → All P (xs ++ ys)
  All-append P [] ys h k = k
  All-append P (x ∷ xs) ys h k = (h.0, All-append P xs ys h.1 k)

module _ {Page World : Type 0} (clients : Clients Page World) (settings : Settings)
    (polls : ℕ) where
  abbrev here : Clients Page (World × Log Page)
  here = logged clients

  abbrev pages_of : List (List Page) → List Page
  pages_of = concat clients.page_bytes settings.ingest_batch_max_bytes

  concat-append : (xs ys : List (List Page)) → pages_of (xs ++ ys) ≡ pages_of xs ++ pages_of ys
  concat-append [] ys = refl
  concat-append (x ∷ xs) ys =
      ap (λ t. x ++ t) (concat-append xs ys) ∙ sym (append_assoc x (pages_of xs) (pages_of ys))

  -- What the log says of a sequence of sent pages.
  abbrev pub Sent : ℕ → ℕ → List Page → Log Page → Type 0
  Sent page_count batch_count pages log =
      (batches : List (List Page)) × (log ≡ numbered 0 batches)
      × (batch_count ≡ length batches)
      × All (IsSendable clients.page_bytes settings.ingest_batch_max_bytes) batches
      × (pages_of batches ≡ pages)
      × (page_count ≡ length pages)
      × (page_count ≤ settings.novo_export_max_pages)

  abbrev KeepsLog : {A : Type 0} → Log Page → A → World × Log Page → Type 0
  KeepsLog log a s = s.1 ≡ log

  -- The answer of a client that does not touch the log.
  Post-any :
      {A : Type 0} (log : Log Page) (out : Result SyncError A × World) (log' : Log Page)
      → log' ≡ log
      → Post (KeepsLog log) (out.0, (out.1, log'))
  Post-any log (err e, w) log' same = tt
  Post-any log (ok a, w) log' same = same

  by_state-KeepsLog :
      (log : Log Page) (job : Job) (rest : Action (World × Log Page) SyncError Job)
      (s : World × Log Page)
      → s.1 ≡ log
      → Post (KeepsLog log) (rest s)
      → Post (KeepsLog log) (by_state here.job_status job rest s)
  by_state-KeepsLog log job rest s same h =
      Post-if (KeepsLog log) (is_success job.state) _ _ s (λ _. same)
        (λ _.
          Post-if (KeepsLog log) (is_failure job.state) _ _ s (λ _. tt)
            (λ _. Post-if (KeepsLog log) (not (is_pending job.state)) _ _ s (λ _. tt) (λ _. h)))

  poll-KeepsLog :
      (log : Log Page) (n : ℕ) (job_id expected : String) (job : Job) (s : World × Log Page)
      → s.1 ≡ log
      → Post (KeepsLog log) (poll here.job_status n job_id expected job s)
  unfolding poll
  poll-KeepsLog log zero job_id expected job s same =
      by_state-KeepsLog log job (throw synchronization_timeout) s same tt
  poll-KeepsLog log (suc n) job_id expected job s same = by_state-KeepsLog log job _ s same (
      Post-continue (KeepsLog log) (KeepsLog log) (here.job_status job_id s) _
        (Post-any log (clients.job_status job_id s.0) s.1 same)
        (λ next t kept.
          Post-if (KeepsLog log) (next.job_id != job_id || next.operation != expected) _ _ t
            (λ _. tt) (λ _. poll-KeepsLog log n job_id expected next t kept)))

  wait_for_job-KeepsLog :
      (log : Log Page) (job : Job) (expected : String) (s : World × Log Page)
      → s.1 ≡ log
      → Post (KeepsLog log) (wait_for_job here.job_status polls job expected s)
  unfolding wait_for_job
  wait_for_job-KeepsLog log job expected s same =
      Post-if (KeepsLog log) (job.job_id == "" || job.operation != expected) _ _ s (λ _. tt)
        (λ _. poll-KeepsLog log polls job.job_id expected job s same)

  -- `send_batches` sends each batch under the next number.
  send_batches-Sent :
      (count : ℕ) (batches : List (List Page)) (log : Log Page) (s : World × Log Page)
      → s.1 ≡ log
      → Post
          (λ n t. (t.1 ≡ log ++ numbered count batches) × (n ≡ count + length batches))
          (send_batches here settings polls count batches s)
  unfolding send_batches
  send_batches-Sent count [] log s same = (same ∙ sym (append-nil log), omega arith)
  send_batches-Sent count (batch ∷ batches) log s same =
      let sent = log ++ (count, batch) ∷ [] in
      let Goal : ℕ → World × Log Page → Type 0 = λ n t.
        (t.1 ≡ log ++ numbered count (batch ∷ batches)) × (n ≡ count + length (batch ∷ batches)) in
      Post-continue (KeepsLog sent) Goal _ _
        (Post-any sent
          (clients.ingest_batch
            (clients.idempotency_key "ingest-batch" (count ∷ []) (clients.batch_checksum batch))
            count batch s.0)
          (s.1 ++ (count, batch) ∷ []) (ap (λ t. t ++ (count, batch) ∷ []) same))
        (λ job t kept.
          Post-continue (KeepsLog sent) Goal _ _
            (wait_for_job-KeepsLog sent job "ingest_batch" t kept)
            (λ _ u kept_too.
              Post-mono _ Goal (send_batches here settings polls (count + 1) batches u)
                (λ n v h. (
                  h.0 ∙ append_assoc log ((count, batch) ∷ []) (numbered (count + 1) batches),
                  h.1 ∙ omega arith,
                ))
                (send_batches-Sent (count + 1) batches sent u kept_too)))

  abbrev SentBy : Progress Page → World × Log Page → Type 0
  SentBy p s = Sent p.page_count p.batch_count p.exported s.1

  read_documents-KeepsLog :
      (log : Log Page) (exported : Exported Page) (s : World × Log Page)
      → s.1 ≡ log
      → Post (KeepsLog log) (read_documents here settings polls exported s)
  read_documents-KeepsLog log exported s same = elim (Option-cases exported.documents) [
    | inl e ↦ rw e tt
    | inr (documents, e) ↦ rw e same
  ]

  lift-Post :
      (Q : Progress Page → World × Log Page → Type 0) (r : Result SyncError (Unit {0}))
      (p : Progress Page) (s : World × Log Page)
      → (r ≡ ok tt → Q p s)
      → Post Q (continue (lift here settings polls r s) (λ _. return p))
  lift-Post Q (ok done) p s h = h refl
  lift-Post Q (err e) p s h = tt

  -- The pages that the generator has partitioned to its end.
  partition-ended :
      (documents : List Page) (out : List (List Page) × Result SyncError (Unit {0}))
      → Partitions clients.page_bytes settings.ingest_batch_max_bytes documents out
      → out.1 ≡ ok tt
      → pages_of out.0 ≡ documents
  partition-ended documents out (_, inl (_, same, _)) e = same
  partition-ended documents out (_, inr failed) e = absurd (err-ne-ok (sym failed.0 ∙ e))

  Sent-more :
      (p : Progress Page) (log : Log Page) (documents : List Page) (more : List (List Page)) (n : ℕ)
      → Sent p.page_count p.batch_count p.exported log
      → All (IsSendable clients.page_bytes settings.ingest_batch_max_bytes) more
      → pages_of more ≡ documents
      → ltb settings.novo_export_max_pages (p.page_count + length documents) ≡ false
      → n ≡ p.batch_count + length more
      → Sent
          (p.page_count + length documents)
          n
          (p.exported ++ documents)
          (log ++ numbered p.batch_count more)
  Sent-more p log documents more n (batches, logged_as, count, all, same, pages, _) sendable shown
        within next =
      (
        batches ++ more,
        rw (logged_as, count)
            (ap (λ t. numbered 0 batches ++ numbered t more) (omega arith)
              ∙ sym (numbered-append 0 batches more)),
        omega (arith, next, count, length-append batches more),
        All-append _ batches more all sendable,
        concat-append batches more ∙ rw (same, shown) refl,
        omega (arith, pages, length-append p.exported documents),
        ground (arith, within),
      )

  ingest_export-SentBy :
      (p : Progress Page) (exported : Exported Page) (log : Log Page) (s : World × Log Page)
      → s.1 ≡ log
      → Sent p.page_count p.batch_count p.exported log
      → Post SentBy (ingest_export here settings polls p exported s)
  unfolding ingest_export
  ingest_export-SentBy p exported log s same sent =
      Post-continue (KeepsLog log) SentBy _ _ (read_documents-KeepsLog log exported s same)
        (λ documents t kept.
          let out =
            partition_page_batches clients.page_bytes settings.ingest_batch_max_bytes documents in
          let parts =
            partition_page_batches-Partitions clients.page_bytes settings.ingest_batch_max_bytes
              documents in
          let seen =
            has_duplicate here settings polls p.seen_page_ids (map clients.page_id documents) in
          let full = ltb settings.novo_export_max_pages (p.page_count + length documents) in
          Post-if SentBy seen _ _ t (λ _. tt)
            (λ _.
              Post-if SentBy full _ _ t (λ _. tt)
                (λ within.
                  Post-continue
                    (λ n u.
                      (u.1 ≡ log ++ numbered p.batch_count out.0)
                      × (n ≡ p.batch_count + length out.0))
                    SentBy _ _ (send_batches-Sent p.batch_count out.0 log t kept)
                    (λ n u h.
                      lift-Post SentBy out.1 (with_documents here settings polls p documents n) u
                        (λ ended. rw h.0 (
                          Sent-more p log documents out.0 n sent parts.0
                            (partition-ended documents out parts ended) within h.1))))))

  next_cursor-SentBy :
      (p : Progress Page) (cursor : Option String) (s : World × Log Page)
      → SentBy p s
      → Post SentBy (next_cursor here settings polls p cursor s)
  next_cursor-SentBy p none s h = tt
  next_cursor-SentBy p (some cursor) s h =
      Post-if SentBy (contains p.seen_cursors cursor) _ _ s (λ _. tt) (λ _. h)

  export_all-SentBy :
      (requests : ℕ) (p : Progress Page) (s : World × Log Page)
      → SentBy p s
      → Post SentBy (export_all here settings polls requests p s)
  unfolding export_all
  export_all-SentBy zero p s h = tt
  export_all-SentBy (suc requests) p s h =
      Post-continue (KeepsLog s.1) SentBy _ _
        (Post-any s.1 (clients.export_pages p.cursor s.0) s.1 refl)
        (λ exported t kept.
          Post-continue SentBy SentBy _ _ (ingest_export-SentBy p exported s.1 t kept h)
            (λ p' u sent.
              Post-if SentBy exported.complete _ _ u (λ _. sent)
                (λ _.
                  Post-continue SentBy SentBy _ _
                    (next_cursor-SentBy p' exported.next_cursor u sent)
                    (λ p'' v again. export_all-SentBy requests p'' v again))))

  -- An export that returns has sent batches under the numbers from 0 on, none empty and each within
  -- the byte limit; their pages in order are what the document's checksum is of, and the summary
  -- counts the batches and the pages, which are within the page limit, under the notebook's id.
  pub export_and_ingest-Sent :
      (w : World)
      → Post
          (λ summary s.
            (pages : List Page) × Sent summary.page_count summary.batch_count pages s.1
            × (summary.document_checksum ≡ clients.document_checksum pages)
            × (summary.notebook_id ≡ clients.notebook_id))
          (export_and_ingest here settings polls (w, []))
  unfolding export_and_ingest
  export_and_ingest-Sent w =
      Post-continue SentBy _ _ _
        (export_all-SentBy settings.novo_export_max_batches (first_progress here settings polls)
          (w, []) ([], refl, refl, tt, refl, refl, omega arith))
        (λ p s sent.
          Post-continue (KeepsLog s.1) _ _ _
            (Post-any s.1 (clients.ingest_finalize _ _ p.page_count p.batch_count s.0) s.1 refl)
            (λ job t kept.
              Post-continue (KeepsLog s.1) _ _ _
                (wait_for_job-KeepsLog s.1 job "ingest_finalize" t kept)
                (λ _ u kept_too. (p.exported, rw kept_too sent, refl, refl))))
