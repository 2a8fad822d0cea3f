-- ===== src/Tests.antt =====
-- Concrete inputs: the witnesses of the theorems.
pub mod Jobs
pub mod Signing
pub mod Models
pub mod Owners
pub mod Retrieval
pub mod Ingest
pub mod Executor
pub mod Sync
pub mod Worker
pub mod Responses
pub mod Citations
