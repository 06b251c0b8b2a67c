-- ===== src/Http/Pipeline/Continuous.antt =====
-- What an error does to a continuous route of packages/http/src/router/http.router.resolver.ts.
use marble_js.Base.{◌≡◌, refl, ◌∙◌, ap, some, true, false, List, [], ◌∷◌}
use marble_js.Http.Pipeline.{
  Ran, then_flow, StreamError, unbound_error, ContinuousState, process_stream_error, continue_if,
  continuous_route, continuous_routes,
}

module _ {Q R X : Type 0} where
  unsubscribed-stays :
      (stream : Q → Ran (R × Q) (StreamError Q X)) (requests : List Q) (st : ContinuousState Q R X)
      → st.is_subscribed ≡ false
      → continuous_routes stream requests st ≡ st
  unfolding continuous_routes continuous_route continue_if
  unsubscribed-stays stream [] st gone = refl
  unsubscribed-stays stream (request ∷ requests) st gone =
      ap (λ b. continuous_routes stream requests (continue_if b (stream request) st)) gone
      ∙ unsubscribed-stays stream requests st gone

  -- A continuous route whose stream fails with an error without a request answers nothing more: what
  -- it gave before the failure stays, and all later requests are left without a response or an
  -- error.
  pub continuous_routes-unbound_error :
      (stream : Q → Ran (R × Q) (StreamError Q X)) (request : Q) (later : List Q)
      (given : List (R × Q)) (error : X) (st : ContinuousState Q R X)
      → st.is_subscribed ≡ true
      → stream request ≡ record { emits = given; failure = some (unbound_error error) }
      → continuous_routes stream (request ∷ later) st ≡ record {
        flow = then_flow st.flow (record { outputs = given; errors = [] });
        is_subscribed = false;
      }
  unfolding continuous_routes continuous_route continue_if process_stream_error
  continuous_routes-unbound_error stream request later given error st opened e =
      ap (λ b. continuous_routes stream later (continue_if b (stream request) st)) opened
      ∙ ap (λ r. continuous_routes stream later (continue_if true r st)) e
      ∙ unsubscribed-stays stream later _ refl
