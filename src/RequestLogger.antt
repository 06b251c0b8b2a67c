-- ===== src/RequestLogger.antt =====
-- packages/middleware-logger/src: what is logged when a response is finished. The clock does not go
-- back between a request and the end of its response.
mod Tests
use marble_js.Base.{
  ◌≡◌, refl, ◌↔◌, ℕ, ◌-◌, ◌/◌, ◌%◌, ◌≤◌, Option, none, some, Bool, true, not, ◌&&◌, [], ◌∷◌, ◌++◌,
  Text, codes, show, eqb, ltb, leb, or_else, if◌then◌else◌, arith,
}
use marble_js.Core.Logger.{LoggerLevel, info, warn, error, LogEntry}

-- What is read of a request and of its response.
pub record LoggedRequest : Type 0 where
  pub method : Text
  pub url : Text
  pub status_code : ℕ

-- `LoggerOptions` of logger.model.ts, with `undefined` for `silent` as false
pub record LoggerSettings : Type 0 where
  pub silent : Bool
  pub filter : Option (LoggedRequest → Bool)

unfoldable pub is_not_silent : LoggerSettings → LoggedRequest → Bool
is_not_silent opts req = not opts.silent

abbrev pub passes_filter : Option (LoggedRequest → Bool) → LoggedRequest → Bool
passes_filter none req = true
passes_filter (some filter) req = filter req

unfoldable pub filter_response : LoggerSettings → LoggedRequest → Bool
filter_response opts req = passes_filter opts.filter req

-- the decimals of a number of thousandths, without zeros at the end
abbrev thousandths : ℕ → Text
thousandths n =
    if eqb n 0
    then []
    else if eqb (n % 100) 0
    then codes "." ++ show (n / 100)
    else if eqb (n % 10) 0
    then codes "." ++ show (n / 100) ++ show (n / 10 % 10)
    else codes "." ++ show (n / 100) ++ show (n / 10 % 10) ++ show (n % 10)

-- `formatTime`, of milliseconds
unfoldable pub format_time : ℕ → Text
format_time time =
    if ltb 1000 time
    then codes "+" ++ show (time / 1000) ++ thousandths (time % 1000) ++ codes "s"
    else codes "+" ++ show time ++ codes "ms"

unfoldable pub factorize_time : ℕ → ℕ → Text
unfolding format_time
factorize_time now start = format_time (now - start)

unfoldable pub factorize_log : ℕ → ℕ → LoggedRequest → Text
unfolding factorize_time
factorize_log now start req =
    req.method
    ++ codes " "
    ++ req.url
    ++ codes " "
    ++ show req.status_code
    ++ codes " "
    ++ factorize_time now start

unfoldable pub level_of : ℕ → LoggerLevel
level_of status = if leb 500 status then error else if leb 400 status then warn else info

-- `loggerHandler`, at the first `finish` of the response
unfoldable pub logger_handler : LoggerSettings → ℕ → ℕ → LoggedRequest → Option (LogEntry ℕ)
unfolding is_not_silent filter_response factorize_log level_of
logger_handler opts now start req =
    if is_not_silent opts req && filter_response opts req
    then some (record {
      tag = codes "http";
      log_type = codes "RequestLogger";
      message = factorize_log now start req;
      level = level_of req.status_code;
      logged = none;
    })
    else none

-- The level of a finished response is that of an error exactly when its status is at least 500.
level_of-error_iff : (status : ℕ) → (level_of status ≡ error) ↔ (500 ≤ status)
unfolding level_of
level_of-error_iff status = ground arith

-- A silent logger logs nothing.
logger_handler-silent :
    (opts : LoggerSettings) (now start : ℕ) (req : LoggedRequest)
    → opts.silent ≡ true
    → logger_handler opts now start req ≡ none
unfolding logger_handler
logger_handler-silent opts now start req h = ground arith
