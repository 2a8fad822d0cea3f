-- ===== src/Gateway/Sync/Checksum/Whole.antt =====
-- novo_chat/gateway/sync.py: the incremental checksum and that of the whole array.
use Prim.Native.String.{◌++◌ as append_text}
use novo_chat.Base.{ℕ, String, ◌≡◌, refl, sym, ap, ◌∙◌, false, List, [], ◌∷◌, ◌++◌}
use novo_chat.Gateway.Sync.Checksum.{Hashlib, DocumentChecksum, new_checksum, add, digest_of}

module _ {Page : Type 0} (hashlib : Hashlib) (canonical_json : Page → List ℕ) where
  open hashlib use {Hash, sha256, update, hexdigest}

  -- The text of a checksum.
  abbrev pub labelled : Hash → String
  labelled hash = append_text "sha256:" (hexdigest hash)

  abbrev tail_json : List Page → List ℕ
  tail_json [] = 93 ∷ []
  tail_json (page ∷ pages) = 44 ∷ canonical_json page ++ tail_json pages

  -- The canonical JSON array of the pages.
  abbrev pub array_json : List Page → List ℕ
  array_json [] = 91 ∷ 93 ∷ []
  array_json (page ∷ pages) = 91 ∷ canonical_json page ++ tail_json pages

  -- The exports in order, each added by itself.
  abbrev pub add_all :
      DocumentChecksum hashlib canonical_json
      → List (List Page)
      → DocumentChecksum hashlib canonical_json
  add_all c [] = c
  add_all c (pages ∷ exports) = add_all (add hashlib canonical_json c pages) exports

  abbrev pub flat : List (List Page) → List Page
  flat [] = []
  flat (pages ∷ exports) = pages ++ flat exports

  add-append :
      (xs ys : List Page) (c : DocumentChecksum hashlib canonical_json)
      → add hashlib canonical_json c (xs ++ ys)
        ≡ add hashlib canonical_json (add hashlib canonical_json c xs) ys
  unfolding add
  add-append [] ys c = refl
  add-append (x ∷ xs) ys c = add-append xs ys _

  add_all-flat :
      (c : DocumentChecksum hashlib canonical_json) (exports : List (List Page))
      → add_all c exports ≡ add hashlib canonical_json c (flat exports)
  unfolding add
  add_all-flat c [] = refl
  add_all-flat c (pages ∷ exports) =
      add_all-flat (add hashlib canonical_json c pages) exports
      ∙ sym (add-append pages (flat exports) c)

  module _ (goes_on : (h : Hash) (a b : List ℕ) → update (update h a) b ≡ update h (a ++ b)) where
    digest_of-later :
        (h : Hash) (pages : List Page)
        → digest_of hashlib canonical_json
            (add hashlib canonical_json (record { hash = h; first = false }) pages)
          ≡ labelled (update h (tail_json pages))
    unfolding add digest_of
    digest_of-later h [] = refl
    digest_of-later h (page ∷ pages) =
        digest_of-later (update (update h (44 ∷ [])) (canonical_json page)) pages
        ∙ ap labelled (
            goes_on (update h (44 ∷ [])) (canonical_json page) (tail_json pages)
            ∙ goes_on h (44 ∷ []) (canonical_json page ++ tail_json pages))

    digest_of-add :
        (pages : List Page)
        → digest_of hashlib canonical_json
            (add hashlib canonical_json (new_checksum hashlib canonical_json) pages)
          ≡ labelled (update sha256 (array_json pages))
    unfolding add digest_of
    digest_of-add [] = ap labelled (goes_on sha256 (91 ∷ []) (93 ∷ []))
    digest_of-add (page ∷ pages) =
        digest_of-later (update (update sha256 (91 ∷ [])) (canonical_json page)) pages
        ∙ ap labelled (
            goes_on (update sha256 (91 ∷ [])) (canonical_json page) (tail_json pages)
            ∙ goes_on sha256 (91 ∷ []) (canonical_json page ++ tail_json pages))

    -- Where an update goes on with the bytes that were hashed before, the incremental checksum of the
    -- exports in order is "sha256:" and the digest of the canonical JSON array of all their pages.
    pub digest_of-add_all :
        (exports : List (List Page))
        → digest_of hashlib canonical_json (add_all (new_checksum hashlib canonical_json) exports)
          ≡ labelled (update sha256 (array_json (flat exports)))
    digest_of-add_all exports =
        ap (digest_of hashlib canonical_json)
          (add_all-flat (new_checksum hashlib canonical_json) exports)
        ∙ digest_of-add (flat exports)
