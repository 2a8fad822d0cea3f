-- ===== src/Gateway.antt =====
-- novo_chat/gateway: the browser's side.
pub mod Ownership
pub mod Sync
