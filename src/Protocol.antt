-- ===== src/Protocol.antt =====
-- novo_chat/protocol.py: the parts of the wire protocol.
pub mod Types
pub mod Replay
pub mod Tokens
pub mod Canonical
pub mod Signing
pub mod Responses
