-- ===== src/Http/Failures/Sent.antt =====
-- How many responses packages/http/src sends for a request, and with which status.
use marble_js.Base.{◌≡◌}
use marble_js.Http.Failures.{SentResponse, sent_response, sent_error}

-- The status of an error response is that of its body.
abbrev pub HasOwnStatus : {Q R D : Type 0} → SentResponse Q R D → Type 0
HasOwnStatus (sent_response request response) = Unit
HasOwnStatus (sent_error request status body) = body.status ≡ status
