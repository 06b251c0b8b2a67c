-- ===== src/RequestLogger/Tests.antt =====
-- The log of packages/middleware-logger/src on concrete requests.
use marble_js.Base.{◌≡◌, refl, none, some, false, codes, show}
use marble_js.Core.Logger.{warn}
use marble_js.RequestLogger.{
  LoggedRequest, format_time, logger_handler, is_not_silent, filter_response, factorize_log,
  factorize_time, level_of,
}

format_time_whole : format_time 2000 ≡ codes "+2s"
unfolding format_time show
format_time_whole = refl

format_time_decimals : format_time 2045 ≡ codes "+2.045s"
unfolding format_time show
format_time_decimals = refl

abbrev missing : LoggedRequest
missing = record { method = codes "GET"; url = codes "/a"; status_code = 404 }

logger_handler-missing :
    logger_handler (record { silent = false; filter = none }) 1703 1700 missing
    ≡ some (record {
      tag = codes "http";
      log_type = codes "RequestLogger";
      message = codes "GET /a 404 +3ms";
      level = warn;
      logged = none;
    })
unfolding logger_handler is_not_silent filter_response factorize_log factorize_time level_of
    format_time show
logger_handler-missing = refl
