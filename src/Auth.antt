-- ===== src/Auth.antt =====
-- backend/src/modules/auth: the sessions of a user and their refresh tokens.
pub mod Sessions
