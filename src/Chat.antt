-- ===== src/Chat.antt =====
-- backend/src/modules/chat: answers to questions, with citations.
pub mod Citations
pub mod Pricing
pub mod Ask
pub mod Llm
pub mod Pattern
