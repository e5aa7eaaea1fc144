-- ===== src/Evaluation.antt =====
-- backend/src/modules/evaluation: the scores of a review and of the searches.
pub mod Pr
pub mod Search
pub mod Retrieval
