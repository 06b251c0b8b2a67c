-- ===== src/Http/Resolver.antt =====
-- packages/http/src/router/http.router.resolver.ts: the bootstrapped routing and `resolve`. The calls
-- of `next` on the subjects are the result; the streams that are subscribed to them are not modelled.
-- `decodeURIComponent` and `qs.parse` are parameters.
pub mod Outcome
pub mod Reachable
pub mod Total
use marble_js.Base.{
  ℕ, Option, none, some, Bool, true, false, List, [], ◌∷◌, ◌++◌, Text, codes, Dict, insert, eqb,
  if◌then◌else◌, map,
}
use marble_js.Http.Path.{PathToRegexp}
use marble_js.Http.Routing.Model.{RoutingMethod, RoutingItem}
use marble_js.Http.Routing.Factory.{Routing}
use marble_js.Http.Status.{HttpStatus, status_code}
use marble_js.Http.Matcher.{
  Decoded, BootstrappedMethod, BootstrappedRoutingItem, RouteMatched, Found, not_matched, uri_error,
  matched, match_route,
}

-- `urlPath` and `urlQuery` of `request.url.split('?')`: the text before the first `?`, and the text
-- between it and the next one; what follows a second `?` is dropped.
before_question : Text → Text
before_question [] = []
before_question (c ∷ s) = if eqb c b'?' then [] else c ∷ before_question s

after_question : Text → Option Text
after_question [] = none
after_question (c ∷ s) = if eqb c b'?' then some s else after_question s

unfoldable pub split_url : Text → Text × Option Text
unfolding before_question after_question
split_url url = (
  before_question url,
  elim (after_question url) [ none ↦ none | some s ↦ some (before_question s) ],
)

pub record HttpError : Type 0 where
  pub message : Text
  pub status : ℕ

-- `ROUTE_NOT_FOUND_ERROR` of http.router.effects.ts
unfoldable pub route_not_found_error : HttpError
route_not_found_error = record {
  message = codes "Route not found";
  status = status_code HttpStatus.not_found;
}

-- `qs.parse`: the query, or what it throws, as the text that `getErrorMessage` gives
pub data Parsed (Q : Type 0) : Type 0 where
  parsed : Q → Parsed Q
  thrown : Text → Parsed Q

module _ {E M : Type 0} where
  unfoldable pub bootstrap_method : RoutingMethod E M → BootstrappedMethod E M
  bootstrap_method method = record { subject = method; parameters = method.parameters }

  -- `Object.entries(item.methods).reduce(…, {})`. The factory stores no `undefined` method, so the
  -- first test of the reducer never succeeds.
  unfoldable pub bootstrap_methods :
      Dict (RoutingMethod E M) → Dict (BootstrappedMethod E M) → Dict (BootstrappedMethod E M)
  unfolding bootstrap_method
  bootstrap_methods [] acc = acc
  bootstrap_methods ((name, method) ∷ entries) acc =
      bootstrap_methods entries (insert name (bootstrap_method method) acc)

  unfoldable pub bootstrap_item :
      {engine : PathToRegexp} → RoutingItem E M engine → BootstrappedRoutingItem E M engine
  unfolding bootstrap_methods
  bootstrap_item item = record {
    reg_exp = item.reg_exp;
    path = item.path;
    methods = bootstrap_methods item.methods [];
  }

-- The request as it is handed on: with its query, its parameters and its `meta.path`.
pub record RoutedRequest (Q : Type 0) : Type 0 where
  pub url : Text
  pub method : Text
  pub query : Q
  pub params : Dict Text
  pub meta_path : Text

-- The calls of `next` that `resolve` makes.
pub data Emission (E M Q : Type 0) : Type 0 where
  error_subject : HttpError → Emission E M Q
  route_subject : RoutingMethod E M → RoutedRequest Q → Emission E M Q
  request_bus : RoutedRequest Q → Emission E M Q

-- the statements of the `try` block behind the search
abbrev pub dispatch :
    {E M Q : Type 0} → RouteMatched E M → Text → Text → Parsed Q → List (Emission E M Q)
dispatch route url method (thrown message) =
    error_subject (record {
      message = codes "Internal server error: " ++ message;
      status = status_code HttpStatus.internal_server_error;
    })
    ∷ []
dispatch {Q} route url method (parsed query) =
    let request : RoutedRequest Q = record {
      url = url;
      method = method;
      query = query;
      params = route.params;
      meta_path = route.path;
    } in
    route_subject route.subject request ∷ request_bus request ∷ []

module _ {Q : Type 0} (parse_query : Text → Parsed Q) (no_query : Q) where
  -- `queryParamsFactory` of http.router.query.factory.ts
  unfoldable pub query_params_factory : Option Text → Parsed Q
  query_params_factory none = parsed no_query
  query_params_factory (some query) = parse_query query

  -- the branches on what the search did, and the `catch` clause
  abbrev pub on_found :
      {E M : Type 0} → Found E M → Text → Text → Option Text → List (Emission E M Q)
  on_found not_matched url method query = error_subject route_not_found_error ∷ []
  on_found (uri_error message) url method query =
      error_subject (record { message = message; status = status_code HttpStatus.bad_request }) ∷ []
  on_found (matched route) url method query = dispatch route url method (query_params_factory query)

  module _ (decode : Text → Decoded) (engine : PathToRegexp) {E M : Type 0} where
    unfoldable pub resolve : Routing engine E M → Text → Text → List (Emission E M Q)
    unfolding split_url query_params_factory bootstrap_item match_route
    resolve routing url method =
        let (url_path, url_query) = split_url url in
        on_found (match_route decode engine (map bootstrap_item routing) url_path method) url method
          url_query
