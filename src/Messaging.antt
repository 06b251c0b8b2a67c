-- ===== src/Messaging.antt =====
-- packages/messaging/src.
pub mod Timers
pub mod Transport
pub mod Amqp
pub mod Middlewares
pub mod Listener
pub mod Client
pub mod EventLogger
pub mod Redis
mod Tests
