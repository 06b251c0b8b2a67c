-- ===== src/Http/Pipeline/Tests.antt =====
-- Routes of packages/http/src/router on concrete requests.
use marble_js.Base.{ℕ, ◌+◌, ◌≡◌, refl, none, some, true, false, [], ◌∷◌}
use marble_js.Http.Pipeline.{
  Ran, then_flow, StreamError, unbound_error, ContinuousState, continuous_routes, run_continuous,
  stream_all, continuous_route, continue_if, process_stream_error,
}
use marble_js.Http.Pipeline.Continuous.{continuous_routes-unbound_error}

abbrev stream : ℕ → Ran (ℕ × ℕ) (StreamError ℕ ℕ)
stream request = record { emits = (1, request) ∷ []; failure = some (unbound_error 9) }

abbrev subscribed : ContinuousState ℕ ℕ ℕ
subscribed = record { flow = record { outputs = []; errors = [] }; is_subscribed = true }

continuous_routes-unbound_error_example :
    continuous_routes stream (3 ∷ 4 ∷ []) subscribed ≡ record {
      flow = then_flow subscribed.flow (record { outputs = (1, 3) ∷ []; errors = [] });
      is_subscribed = false;
    }
continuous_routes-unbound_error_example =
    continuous_routes-unbound_error stream 3 (4 ∷ []) ((1, 3) ∷ []) 9 subscribed refl refl

abbrev passing : ℕ → Ran ℕ (StreamError ℕ ℕ)
passing request = record { emits = request ∷ (request + 1) ∷ []; failure = none }

-- the effect fails on the first of the two requests that the middleware passes on
run_continuous_tests :
    run_continuous (passing ∷ []) stream 3
    ≡ record { emits = (1, 3) ∷ []; failure = some (unbound_error 9) }
unfolding run_continuous stream_all
run_continuous_tests = refl

continuous_middleware_tests :
    continuous_route (run_continuous (passing ∷ []) stream) 3 subscribed
    ≡ record { flow = record { outputs = (1, 3) ∷ []; errors = [] }; is_subscribed = false }
unfolding run_continuous stream_all continuous_route continue_if process_stream_error
continuous_middleware_tests = refl
