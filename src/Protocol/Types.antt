-- ===== src/Protocol/Types.antt =====
-- novo_chat/protocol.py: the enumerations and the notebook scope that the worker's tables store.
use novo_chat.Base.{
  ℕ, String, ◌≡◌, ◌↔◌, Bool, true, ◌&&◌, arith, nat_beq, Eq, ◌==◌, string_eq, eq_iff,
}

pub data JobOperation : Type 0 where
  ingest_batch ingest_finalize index_rebuild query model_start model_stop : JobOperation

pub data JobState : Type 0 where
  queued running succeeded failed canceled : JobState

-- A member's position in its `Enum` class: two members are equal if their positions are.
abbrev operation_position : JobOperation → ℕ
operation_position ingest_batch = 0
operation_position ingest_finalize = 1
operation_position index_rebuild = 2
operation_position query = 3
operation_position model_start = 4
operation_position model_stop = 5

abbrev state_position : JobState → ℕ
state_position queued = 0
state_position running = 1
state_position succeeded = 2
state_position failed = 3
state_position canceled = 4

abbrev pub operation_beq : JobOperation → JobOperation → Bool
operation_beq a b = nat_beq (operation_position a) (operation_position b)

pub operation_beq_iff : (a b : JobOperation) → (operation_beq a b ≡ true) ↔ (a ≡ b)
operation_beq_iff a b = ground arith

instance abbrev pub operation_eq : Eq JobOperation
operation_eq = record { is_equal = operation_beq; equal_iff = operation_beq_iff }

abbrev pub state_beq : JobState → JobState → Bool
state_beq a b = nat_beq (state_position a) (state_position b)

pub state_beq_iff : (a b : JobState) → (state_beq a b ≡ true) ↔ (a ≡ b)
state_beq_iff a b = ground arith

instance abbrev pub state_eq : Eq JobState
state_eq = record { is_equal = state_beq; equal_iff = state_beq_iff }

pub record NotebookScope : Type 0 where
  pub notebook_id : String
  pub content_revision : String
  pub index_schema_version : String

abbrev pub scope_beq : NotebookScope → NotebookScope → Bool
scope_beq a b =
    a.notebook_id == b.notebook_id
    && a.content_revision == b.content_revision
    && a.index_schema_version == b.index_schema_version

pub scope_beq_iff : (a b : NotebookScope) → (scope_beq a b ≡ true) ↔ (a ≡ b)
scope_beq_iff a b = ground (
  arith,
  eq_iff a.notebook_id b.notebook_id,
  eq_iff a.content_revision b.content_revision,
  eq_iff a.index_schema_version b.index_schema_version,
)

instance abbrev pub scope_eq : Eq NotebookScope
scope_eq = record { is_equal = scope_beq; equal_iff = scope_beq_iff }
