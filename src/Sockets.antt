-- ===== src/Sockets.antt =====
-- packages/websockets/src.
pub mod Heartbeat
pub mod Listener
pub mod Responses
pub mod Upgrade
mod Tests
