-- ===== src/Tests/Owners.antt =====
-- novo_chat/gateway/store.py: a job that two callers add.
use Prim.Native.String.{len}
use novo_chat.Base.{◌≡◌, refl, eq_iff, ◌⊎◌, inl, some, List, [], ◌∷◌, arith, leb, ltb}
use novo_chat.Base.Result.{ok, err}
use novo_chat.Protocol.Types.{NotebookScope}
use novo_chat.Gateway.Ownership.Scope.{
  TextOrder, normalized_scope, duplicate_notebook, ownership_collision,
}
use novo_chat.Gateway.Ownership.{OwnerRow, OwnedJob, Clock, AddRequest, add, get}
use novo_chat.Gateway.Ownership.Keeps.{Call, add_job, get_job, run}
use novo_chat.Gateway.Ownership.Owner.{get-add, add-other_owner}

-- Texts by their length.
abbrev by_length : TextOrder
by_length = record {
  leb_text = λ a b. leb (len a) (len b);
  before = λ a b. ltb (len a) (len b);
  total = λ a b h. ground arith;
}

abbrev clock : Clock
clock = record { now = "2026-01-09"; cutoff = "2026-01" }

abbrev notebook : NotebookScope
notebook = record { notebook_id = "nb1"; content_revision = "r1"; index_schema_version = "v1" }

abbrev long_notebook : NotebookScope
long_notebook = record notebook { notebook_id = "nb10" }

abbrev request : AddRequest
request = record {
  job_id = "j1";
  user_id = "ada";
  operation = "ask";
  scope = long_notebook ∷ notebook ∷ [];
}

abbrev stolen : AddRequest
stolen = record request { user_id = "bob" }

abbrev owned : OwnedJob
owned = record {
  job_id = "j1";
  user_id = "ada";
  operation = "ask";
  notebook_ids = "nb1" ∷ "nb10" ∷ [];
  scope = some (notebook ∷ long_notebook ∷ []);
  created_at = "2026-01-09";
}

abbrev row : OwnerRow
row = record {
  job_id = "j1";
  user_id = "ada";
  operation = "ask";
  notebook_ids = "nb1" ∷ "nb10" ∷ [];
  scope = some (notebook ∷ long_notebook ∷ []);
  created_at = "2026-01-09";
}

added : add by_length clock request [] ≡ (ok owned, row ∷ [])
unfolding add normalized_scope
added = refl

abbrev calls : List Call
calls = add_job clock stolen ∷ get_job clock "j2" ∷ []

get-add_example : (get by_length clock "j1" (run by_length calls (row ∷ []))).0 ≡ ok (some owned)
get-add_example =
    get-add by_length clock clock request [] (row ∷ []) owned calls added (refl, (refl, tt)) refl

add-other_owner_example :
    let (answer, table) = add by_length clock stolen (run by_length calls (row ∷ [])) in
    ((answer ≡ err ownership_collision) ⊎ (answer ≡ err duplicate_notebook))
    × (table ≡ run by_length calls (row ∷ []))
add-other_owner_example =
    add-other_owner by_length clock clock request stolen [] (row ∷ []) owned calls added
      (refl, (refl, tt)) refl refl (inl (λ h. ground (arith, eq_iff "bob" "ada")))
