-- ===== src/Gateway/Sync.antt =====
-- novo_chat/gateway/sync.py: GatewaySynchronizer. The clients of Novo and of the worker are parameters.
pub mod Batches
pub mod Missing
pub mod Polling
pub mod Export
pub mod Checksum
use novo_chat.Base.{String}

-- WorkerRejected, SynchronizationError, ExportLimitExceeded, SynchronizationTimeout, and what the
-- clients raise.
pub data SyncError : Type 0 where
  worker_rejected export_limit_exceeded synchronization_timeout client_failed : SyncError
  index_not_ready unsupported_page duplicate_page invalid_cursor job_failed : SyncError
