-- ===== src/Gateway/Sync/Missing.antt =====
-- novo_chat/gateway/sync.py: `_missing_scope`, on the worker's answer.
pub mod Worker
use novo_chat.Base.{
  ℕ, Bool, true, false, not, Option, none, some, List, [], ◌∷◌, ◌++◌, ◌==◌, ◌!=◌, nat_eq, any,
  find_first, length, if◌then◌else◌,
}
use novo_chat.Base.Result.{Result, ok, err, ◌>>=◌, ◌>>◌, raise_if}
use novo_chat.Protocol.Types.{NotebookScope, scope_eq}
use novo_chat.Gateway.Sync.{SyncError, worker_rejected, index_not_ready}

-- A row of the answer: its key, and `exactReady` if it is a Boolean.
pub record StatusRow : Type 0 where
  pub key : NotebookScope
  pub exact_ready : Option Bool

-- `by_key`
abbrev pub ByKey : Type 0
ByKey = List (NotebookScope × Bool)

abbrev pub look_up : NotebookScope → ByKey → Option (NotebookScope × Bool)
look_up key = find_first (λ e. e.0 == key)

abbrev pub take : {A : Type 0} → Option A → Result SyncError A
take none = err worker_rejected
take (some a) = ok a

-- The loop over the rows; none for a row that is not an object.
unfoldable pub read_rows : ByKey → List (Option StatusRow) → Result SyncError ByKey
read_rows by_key [] = ok by_key
read_rows by_key (raw ∷ rows) = do
  row ← take raw
  raise_if (any (λ e. e.0 == row.key) by_key) worker_rejected
  exact_ready ← take row.exact_ready
  read_rows (by_key ++ (row.key, exact_ready) ∷ []) rows

-- The loop over the scope.
unfoldable pub find_missing : ByKey → List NotebookScope → Result SyncError (List NotebookScope)
find_missing by_key [] = ok []
find_missing by_key (entry ∷ scope) = do
  found ← take (look_up entry by_key)
  missing ← find_missing by_key scope
  ok (if found.1 then missing else entry ∷ missing)

-- The answer's `indexes`, or none if that is not a list.
unfoldable pub missing_scope :
    List NotebookScope → Option (List (Option StatusRow)) → Result SyncError (List NotebookScope)
unfolding read_rows find_missing
missing_scope scope response = do
  rows ← take response
  raise_if (length rows != length scope) worker_rejected
  by_key ← read_rows [] rows
  find_missing by_key scope

-- `require_indexes_ready`
abbrev pub require_none : List NotebookScope → Result SyncError (Unit {0})
require_none [] = ok tt
require_none (entry ∷ missing) = err index_not_ready

unfoldable pub require_indexes_ready :
    List NotebookScope → Option (List (Option StatusRow)) → Result SyncError (Unit {0})
require_indexes_ready scope response = missing_scope scope response >>= require_none
