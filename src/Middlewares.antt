-- ===== src/Middlewares.antt =====
-- backend/src/core/middlewares.
pub mod RateLimit
pub mod Guards
