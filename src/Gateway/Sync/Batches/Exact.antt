-- ===== src/Gateway/Sync/Batches/Exact.antt =====
-- novo_chat/gateway/sync.py: what `_partition_page_batches` yields.
use novo_chat.Base.{
  ℕ, ◌+◌, ◌-◌, ◌≤◌, ◌<◌, ◌≡◌, ◌⊎◌, refl, sym, ap, ◌∙◌, List, [], ◌∷◌, ◌++◌, ltb, arith, inl, inr,
  Bool-cases, All, All-concat, length, length-append,
}
use mathlib.Core.List.{append_assoc, append-nil}
use novo_chat.Base.Result.{ok, err}
use novo_chat.Gateway.Sync.{export_limit_exceeded}
use novo_chat.Gateway.Sync.Batches.{
  comma, Yielded, yield_first, last_batch, next_batch, partition_from, partition_page_batches,
}

module _ {Page : Type 0} (page_bytes : Page → ℕ) (limit : ℕ) where
  abbrev sum_bytes : List Page → ℕ
  sum_bytes [] = 0
  sum_bytes (page ∷ pages) = page_bytes page + sum_bytes pages

  -- The bytes of the canonical JSON array of a batch: its brackets, its pages, the commas between.
  abbrev pub array_bytes : List Page → ℕ
  array_bytes batch = 2 + sum_bytes batch + (length batch - 1)

  abbrev pub concat : List (List Page) → List Page
  concat [] = []
  concat (batch ∷ batches) = batch ++ concat batches

  -- A batch that the worker takes: not empty, and within the limit.
  abbrev pub IsSendable : List Page → Type 0
  IsSendable batch = (0 < length batch) × (array_bytes batch ≤ limit)

  -- Every batch is sendable. A generator that ended has yielded the pages, all within the limit; one
  -- that raised has yielded the pages before the first one that exceeds the limit by itself.
  abbrev pub Partitions : List Page → Yielded page_bytes limit → Type 0
  Partitions pages out =
      All IsSendable out.0
      × (((out.1 ≡ ok tt)
            × (concat out.0 ≡ pages)
            × All (λ page. 2 + page_bytes page ≤ limit) pages)
          ⊎ ((out.1 ≡ err export_limit_exceeded)
              × (page : Page) × (later : List Page) × (pages ≡ concat out.0 ++ page ∷ later)
              × (limit < 2 + page_bytes page)
              × All (λ p. 2 + page_bytes p ≤ limit) (concat out.0)))

  abbrev Fits : Page → Type 0
  Fits page = 2 + page_bytes page ≤ limit

  -- The batch that the loop is filling.
  abbrev IsOpen : List Page → Type 0
  IsOpen [] = Unit
  IsOpen (page ∷ batch) = (array_bytes (page ∷ batch) ≤ limit) × All Fits (page ∷ batch)

  sum-concat :
      (batch : List Page) (page : Page)
      → sum_bytes (batch ++ page ∷ []) ≡ sum_bytes batch + page_bytes page
  sum-concat [] page = omega arith
  sum-concat (p ∷ batch) page = omega (arith, sum-concat batch page)

  array_bytes-concat :
      (batch : List Page) (page : Page)
      → array_bytes batch + page_bytes page + comma page_bytes limit batch
        ≡ array_bytes (batch ++ page ∷ [])
  array_bytes-concat [] page = omega arith
  array_bytes-concat (p ∷ batch) page =
      omega (arith, sum-concat batch page, length-append batch (page ∷ []))

  IsOpen-concat :
      (batch : List Page) (page : Page)
      → IsOpen batch
      → array_bytes (batch ++ page ∷ []) ≤ limit
      → IsOpen (batch ++ page ∷ [])
  IsOpen-concat [] page h k = (k, (omega (arith, k), tt))
  IsOpen-concat (p ∷ batch) page h k =
      (k, All-concat Fits (p ∷ batch) h.1 (omega (arith, k, sum-concat batch page)))

  last_batch-Partitions :
      (batch : List Page) → IsOpen batch → Partitions batch (last_batch page_bytes limit batch)
  last_batch-Partitions [] h = (tt, inl (refl, refl, tt))
  last_batch-Partitions (page ∷ batch) h =
      (((omega arith, h.0), tt), inl (refl, append-nil (page ∷ batch), h.1))

  All-append : (xs ys : List Page) → All Fits xs → All Fits ys → All Fits (xs ++ ys)
  All-append [] ys h k = k
  All-append (x ∷ xs) ys h k = (h.0, All-append xs ys h.1 k)

  -- A batch before the pages that the rest partitions.
  yield_first-Partitions :
      (batch pages : List Page) (rest : Yielded page_bytes limit)
      → IsSendable batch
      → All Fits batch
      → Partitions pages rest
      → Partitions (batch ++ pages) (yield_first page_bytes limit batch rest)
  yield_first-Partitions batch pages rest sendable fits (all, inl (done, same, within)) =
      ((sendable, all), inl (done, ap (λ t. batch ++ t) same, All-append batch pages fits within))
  yield_first-Partitions batch pages rest sendable fits
        (all, inr (raised, page, later, same, large, within)) =
      (
        (sendable, all),
        inr (
          raised,
          page,
          later,
          ap (λ t. batch ++ t) same ∙ sym (append_assoc batch (concat rest.0) (page ∷ later)),
          large,
          All-append batch (concat rest.0) fits within,
        ),
      )

  next_batch-Partitions :
      (batch : List Page) (page : Page) (pages : List Page) (rest : Yielded page_bytes limit)
      → IsOpen batch
      → limit < array_bytes (batch ++ page ∷ [])
      → (Fits page → Partitions (page ∷ pages) rest)
      → Partitions (batch ++ page ∷ pages) (next_batch page_bytes limit batch page rest)
  next_batch-Partitions [] page pages rest filling large later =
      (tt, inr (refl, page, pages, refl, omega (arith, large), tt))
  next_batch-Partitions (first ∷ batch) page pages rest filling large later =
      yield_first-Partitions (first ∷ batch) (page ∷ pages) _ (omega arith, filling.0) filling.1
        (elim (Bool-cases (ltb limit (2 + page_bytes page))) [
          | inl e ↦ rw e (tt, inr (refl, page, pages, refl, ground (arith, e), tt))
          | inr e ↦ rw e (later (ground (arith, e)))
        ])

  partition_from-Partitions :
      (batch : List Page) (bytes : ℕ) (pages : List Page)
      → bytes ≡ array_bytes batch
      → IsOpen batch
      → Partitions (batch ++ pages) (partition_from page_bytes limit batch bytes pages)
  unfolding partition_from
  partition_from-Partitions batch bytes [] same filling =
      rw append-nil (last_batch-Partitions batch filling)
  partition_from-Partitions batch bytes (page ∷ pages) same filling =
      let candidate = bytes + page_bytes page + comma page_bytes limit batch in
      let grown : candidate ≡ array_bytes (batch ++ page ∷ []) =
        ap (λ t. t + page_bytes page + comma page_bytes limit batch) same
        ∙ array_bytes-concat batch page in
      elim (Bool-cases (ltb limit candidate)) [
        | inl e ↦ rw e (
            next_batch-Partitions batch page pages _ filling (ground (arith, e, grown)) (λ fits.
              partition_from-Partitions (page ∷ []) (2 + page_bytes page) pages (omega arith)
                (omega (arith, fits), (fits, tt))))
        | inr e ↦
            rw (e, sym (append_assoc batch (page ∷ []) pages))
              (partition_from-Partitions (batch ++ page ∷ []) candidate pages grown
                (IsOpen-concat batch page filling (ground (arith, e, grown))))
      ]

  -- Whatever the pages, the batches of `_partition_page_batches` are what `Partitions` says.
  pub partition_page_batches-Partitions :
      (pages : List Page) → Partitions pages (partition_page_batches page_bytes limit pages)
  unfolding partition_page_batches
  partition_page_batches-Partitions pages = partition_from-Partitions [] 2 pages (omega arith) tt
