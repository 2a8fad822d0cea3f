-- ===== src/Gateway/Sync/Checksum.antt =====
-- novo_chat/gateway/sync.py: CanonicalDocumentChecksum. hashlib and canonical JSON are parameters.
pub mod Whole
use Prim.Native.String.{◌++◌ as append_text}
use novo_chat.Base.{ℕ, String, Bool, true, false, List, [], ◌∷◌, if◌then◌else◌}

-- A byte is its number; `update` goes on with a hash object.
pub record Hashlib : Type 1 where
  pub Hash : Type 0
  pub sha256 : Hash
  pub update : Hash → List ℕ → Hash
  pub hexdigest : Hash → String

module _ {Page : Type 0} (hashlib : Hashlib) (canonical_json : Page → List ℕ) where
  open hashlib use {Hash, sha256, update, hexdigest}

  pub record DocumentChecksum : Type 0 where
    pub hash : Hash
    pub first : Bool

module _ {Page : Type 0} (hashlib : Hashlib) (canonical_json : Page → List ℕ) where
  open hashlib use {Hash, sha256, update, hexdigest}

  -- `b"["`
  abbrev pub new_checksum : DocumentChecksum hashlib canonical_json
  new_checksum = record { hash = update sha256 (91 ∷ []); first = true }

  unfoldable pub add :
      DocumentChecksum hashlib canonical_json → List Page → DocumentChecksum hashlib canonical_json
  add c [] = c
  add c (page ∷ pages) =
      let hash = if c.first then c.hash else update c.hash (44 ∷ []) in
      add (record { hash = update hash (canonical_json page); first = false }) pages

  -- `hexdigest`, of a copy of the hash object
  unfoldable pub digest_of : DocumentChecksum hashlib canonical_json → String
  digest_of c = append_text "sha256:" (hexdigest (update c.hash (93 ∷ [])))
