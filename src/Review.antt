-- ===== src/Review.antt =====
-- backend/src/modules/pr-review: the review of a pull request.
pub mod Types
pub mod Diff
pub mod Writeback
pub mod Risk
pub mod Chunks
pub mod Findings
pub mod Store
pub mod Prompt
pub mod Services
pub mod Material
pub mod Pipeline
