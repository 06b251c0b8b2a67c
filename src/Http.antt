-- ===== src/Http.antt =====
-- The package `@marblejs/http` (packages/http/src).
pub mod Builder
pub mod Path
pub mod Routing
pub mod Failures
pub mod Matcher
pub mod Pipeline
pub mod Resolver
pub mod Storage
pub mod HeaderValues
pub mod Response
pub mod Status
mod Tests
