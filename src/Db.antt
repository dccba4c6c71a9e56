-- ===== src/Db.antt =====
-- The database helpers of db/.
pub mod Builder
mod Tests
