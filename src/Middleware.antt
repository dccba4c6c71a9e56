-- ===== src/Middleware.antt =====
-- The middleware of middleware/.
pub mod Etag
pub mod RateLimit
mod Tests
