-- ===== src/Core/Logger.antt =====
-- packages/core/src/logger/logger.interface.ts: what a logger is given.
use marble_js.Base.{Option, Text}

pub data LoggerLevel : Type 0 where
  info : LoggerLevel
  warn : LoggerLevel
  error : LoggerLevel
  debug : LoggerLevel
  verbose : LoggerLevel

-- `LoggerOptions`; `logged` is its `data`, a payload that may be `undefined`
pub record LogEntry (P : Type 0) : Type 0 where
  pub tag : Text
  pub log_type : Text
  pub message : Text
  pub level : LoggerLevel
  pub logged : Option (Option P)
