-- ===== src/Core.antt =====
-- packages/core/src.
pub mod Context
pub mod Effects
pub mod Env
pub mod Errors
pub mod Events
pub mod Logger
