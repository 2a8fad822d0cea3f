-- ===== src/Rag.antt =====
-- novo_chat/rag_core.py: the pure retrieval helpers.
pub mod Chunks
pub mod Rebuild
pub mod Diversify
pub mod Terms
pub mod Citations
