-- ===== src/Lib.antt =====
-- Novo Chat answers questions about the notebooks of an electronic lab notebook. A gateway on the
-- public host talks to the browser and to Novo; a worker on the compute host stores documents, builds
-- indexes and runs a language model. The gateway signs its requests to the worker; the worker keeps
-- its jobs in a SQLite database, which one executor thread drains; a root-owned controller starts and
-- stops the model containers, one at a time. The development follows these parts:
--   Base          tests, equality, lists, searches, integers and results that the parts share;
--   Protocol      novo_chat/protocol.py: Tokens (the regular expressions), Canonical (paths, queries,
--                 request ids), Signing (sign_request, verify_request), Responses (sign_response,
--                 verify_response), Replay (ReplayGuard and InMemoryReplayGuard), Types (the enumerations
--                 and the notebook scope);
--   Jobs          novo_chat/jobs.py: the tables of JobStore and one function per method, in Tables,
--                 Submit, Transition, Claim, Recovery, Retention, Catalog and Nonces; Calls is a
--                 sequence of the worker's calls; the other modules are theorems;
--   ModelControl  deploy/compute-host/modelctl_server.py: Config, Controller and Requests;
--   Gateway       novo_chat/gateway/store.py: Ownership (JobOwnershipStore); novo_chat/gateway/sync.py:
--                 Sync (Batches, Checksum, Missing, Polling, and Export of one notebook);
--   Rag           novo_chat/rag_core.py: Chunks, Diversify, Terms and Citations;
--   Documents     novo_chat/documents.py: DocumentStore's batches and finalized documents;
--   Executor      novo_chat/executor.py: Tasks (the calls that methods are made of), Rebuild, Lifecycle
--                 and Handlers (the handlers of the operations), Loop (run_once, run_until_idle); the
--                 other modules are theorems;
--   Worker        novo_chat/worker.py: Framing (the headers and body before the signature check), Api
--                 (submit_job and what it uses) and Endpoints (the POST endpoints, index_status and
--                 job_status);
--   Tests         concrete inputs.
-- The worker's request handler uses the nonce table of Jobs as the replay guard of Protocol: the
-- interface is the record ReplayGuard, which Protocol.Replay.Once and Jobs.Nonces.Once fill.
-- A table is the list of its rows in rowid order, and a JSON column holds the value that its text
-- encodes. A method that raises answers an error, and its caller keeps the tables that it had, since
-- the transaction rolls back. Immediate transactions make a call one step, so that threads interleave
-- as sequences of calls. Floats, the clock's texts, JSON, digests, HMAC, urllib, uuid, re and the
-- Docker host are parameters; what is assumed of Docker is the laws of the record Host.
-- The loop of chunk_text runs on fuel, the number of tokens, which is at least the number of the
-- range's starts. The other loops are structural; run_until_idle recurses on its own maximum,
-- and so does the export loop. The polling of a job has the number of requests before its timeout.
-- A task of the executor changes the job store, the document store, the world outside and the
-- variables of the running method, and keeps them when it raises. A call that takes a progress
-- callback is a tree: it answers, or reports a value and goes on with what the callback did.
-- Not modelled: HTTP and socket servers and clients, the worker's health and model status pages,
-- the message classes of pydantic, the executor's thread, the search and model backends,
-- configuration, the browser's code and the deployment files.
pub mod Base
pub mod Protocol
pub mod Jobs
pub mod ModelControl
pub mod Gateway
pub mod Rag
pub mod Documents
pub mod Tests
pub mod Executor
pub mod Worker
