-- ===== src/Middleware.antt =====
-- The package middleware.
pub mod RateLimit
pub mod Auth
