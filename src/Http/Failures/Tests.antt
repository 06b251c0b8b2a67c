-- ===== src/Http/Failures/Tests.antt =====
-- Responses of packages/http/src on a route whose effect fails.
use marble_js.Base.{ℕ, ◌+◌, ◌≡◌, refl, none, some, [], ◌∷◌, codes}
use marble_js.Http.Failures.{
  RouteError, request_failure, http_failure, respond, sent_error, send_route_errors,
  default_error_response, inner_error, get_status_code, error_factory, send_route_outputs,
}
use marble_js.Http.Pipeline.{Ran, run_route, decorate_effect, decorate_middleware, flow_all}

abbrev passing : ℕ → Ran ℕ (RouteError ℕ ℕ)
passing request = record { emits = (request + 1) ∷ []; failure = none }

abbrev failing : ℕ → Ran ℕ (RouteError ℕ ℕ)
failing request = record {
  emits = [];
  failure = some (request_failure request (http_failure (codes "no") 404 none none));
}

-- the middleware passes the request 5, which the response of the error has
respond_tests :
    respond (run_route (passing ∷ []) failing 4)
    ≡ sent_error 5 404 (record { status = 404; message = codes "no"; context = none; info = none })
      ∷ []
unfolding respond send_route_errors send_route_outputs default_error_response inner_error
    get_status_code error_factory run_route decorate_effect decorate_middleware flow_all
respond_tests = refl
