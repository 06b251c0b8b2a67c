-- ===== src/Http/Pipeline.antt =====
-- The stream of a route, from packages/http/src/router/http.router.resolver.ts (the bootstrapped
-- routing), http.router.helpers.ts and http.router.combiner.ts: what becomes of a request that the
-- route gets, when its middlewares and its effect are synchronous. Logging is not modelled.
pub mod Answers
pub mod Continuous
mod Tests
use marble_js.Base.{
  ◌≡◌, refl, Option, none, some, Bool, true, false, List, [], ◌∷◌, ◌++◌, map, if◌then◌else◌,
}

-- What a stream emits on one request, and the error that ends it.
pub record Ran (A X : Type 0) : Type 0 where
  pub emits : List A
  pub failure : Option X

-- What reaches the output subject, each response with its request, and the error subject.
pub record Flow (Q R X : Type 0) : Type 0 where
  pub outputs : List (R × Q)
  pub errors : List (X × Q)

module _ {Q R X : Type 0} where
  abbrev pub no_flow : Flow Q R X
  no_flow = record { outputs = []; errors = [] }

  abbrev pub then_flow : Flow Q R X → Flow Q R X → Flow Q R X
  then_flow a b = record { outputs = a.outputs ++ b.outputs; errors = a.errors ++ b.errors }

  -- `errorSubject.next({ error, request })` and `EMPTY`
  abbrev pub caught : Option X → Q → Flow Q R X
  caught none request = no_flow
  caught (some error) request = record { outputs = []; errors = (error, request) ∷ [] }

  -- `decorateEffect` on one request
  unfoldable pub decorate_effect : (Q → Ran R X) → Q → Flow Q R X
  decorate_effect effect request =
      let ran = effect request in
      then_flow (record { outputs = map (λ res. (res, request)) ran.emits; errors = [] })
        (caught ran.failure request)

  unfoldable pub flow_all : (Q → Flow Q R X) → List Q → Flow Q R X
  flow_all next [] = no_flow
  flow_all next (request ∷ requests) = then_flow (next request) (flow_all next requests)

  -- `decorateMiddleware` on one request, before the rest of the stream
  unfoldable pub decorate_middleware : (Q → Ran Q X) → (Q → Flow Q R X) → Q → Flow Q R X
  unfolding flow_all
  decorate_middleware middleware next request =
      let ran = middleware request in
      then_flow (flow_all next ran.emits) (caught ran.failure request)

  -- `combineRouteMiddlewares` and the effect, where `decorate` is true: the route is not continuous
  unfoldable pub run_route : List (Q → Ran Q X) → (Q → Ran R X) → Q → Flow Q R X
  unfolding decorate_effect decorate_middleware
  run_route [] effect request = decorate_effect effect request
  run_route (middleware ∷ middlewares) effect request =
      decorate_middleware middleware (run_route middlewares effect) request

-- A continuous route is not decorated: the middlewares and the effect are one stream, and an error
-- of it has a request, or not.
pub data StreamError (Q X : Type 0) : Type 0 where
  bound_error : X → Q → StreamError Q X
  unbound_error : X → StreamError Q X

-- The subjects and whether the route is still subscribed to its stream.
pub record ContinuousState (Q R X : Type 0) : Type 0 where
  pub flow : Flow Q R X
  pub is_subscribed : Bool

module _ {Q A E : Type 0} where
  -- the rest of a stream on what it is given one after the other, until it fails, or what gives it
  -- does
  unfoldable pub stream_all : (Q → Ran A E) → List Q → Option E → Ran A E
  stream_all next [] failure = record { emits = []; failure = failure }
  stream_all next (request ∷ requests) failure =
      let first = next request in
      let rest = stream_all next requests failure in
      elim first.failure [
        | none ↦ record rest { emits = first.emits ++ rest.emits }
        | some error ↦ first
      ]

  -- `combineRouteMiddlewares` and the effect, where `decorate` is false: one stream for all
  unfoldable pub run_continuous : List (Q → Ran Q E) → (Q → Ran A E) → Q → Ran A E
  unfolding stream_all
  run_continuous [] effect request = effect request
  run_continuous (middleware ∷ middlewares) effect request =
      let ran = middleware request in
      stream_all (run_continuous middlewares effect) ran.emits ran.failure

module _ {Q R X : Type 0} where
  -- `processError`: it throws for an error without a request, which ends the stream
  unfoldable pub process_stream_error :
      Option (StreamError Q X) → ContinuousState Q R X → ContinuousState Q R X
  process_stream_error none st = st
  process_stream_error (some (bound_error error request)) st = record st {
    flow = then_flow st.flow (record { outputs = []; errors = (error, request) ∷ [] });
  }
  process_stream_error (some (unbound_error error)) st = record st { is_subscribed = false }

  unfoldable pub continue_if :
      Bool → Ran (R × Q) (StreamError Q X) → ContinuousState Q R X → ContinuousState Q R X
  unfolding process_stream_error
  continue_if false ran st = st
  continue_if true ran st =
      process_stream_error ran.failure
        (record st { flow = then_flow st.flow (record { outputs = ran.emits; errors = [] }) })

  -- a request that a continuous route gets, whose responses have their requests
  unfoldable pub continuous_route :
      (Q → Ran (R × Q) (StreamError Q X)) → Q → ContinuousState Q R X → ContinuousState Q R X
  unfolding continue_if
  continuous_route stream request st = continue_if st.is_subscribed (stream request) st

  unfoldable pub continuous_routes :
      (Q → Ran (R × Q) (StreamError Q X)) → List Q → ContinuousState Q R X → ContinuousState Q R X
  unfolding continuous_route
  continuous_routes stream [] st = st
  continuous_routes stream (request ∷ requests) st =
      continuous_routes stream requests (continuous_route stream request st)
