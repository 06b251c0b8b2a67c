-- ===== src/Parsers.antt =====
-- packages/middleware-body/src and packages/middleware-multipart/src.
pub mod Body
pub mod Multipart
mod Tests
