-- ===== src/Realtime.antt =====
-- realtime: WebSocket connections.
pub mod WebSocket
mod Tests
