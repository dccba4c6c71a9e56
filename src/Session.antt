-- ===== src/Session.antt =====
-- The session stores of session/.
pub mod Memory
pub mod CookieStore
mod Tests
