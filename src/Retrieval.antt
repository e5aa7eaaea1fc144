-- ===== src/Retrieval.antt =====
-- backend/src/modules/retrieval: the search for context.
pub mod Types
pub mod Merge
pub mod Rerank
pub mod Context
