-- ===== src/Http/Resolver/Outcome.antt =====
-- The outcomes of `resolve` (http.router.resolver.ts).
use marble_js.Base.{
  ◌≡◌, refl, ◌⊎◌, inl, inr, Option, some, true, List, [], ◌∷◌, Text, Dict, lookup, insert,
  lookup-insert, ◌==◌, is_some, arith, AllIn, AllIn-insert, AllIn-lookup, Bool-cases,
}
use marble_js.Http.Path.{PathToRegexp}
use marble_js.Http.Routing.Model.{RoutingMethod}
use marble_js.Http.Routing.Factory.{Routing}
use marble_js.Http.Matcher.{
  Decoded, BootstrappedMethod, Found, not_matched, uri_error, matched, RouteMatched,
}
use marble_js.Http.Resolver.{
  HttpError, route_not_found_error, Parsed, parsed, thrown, bootstrap_method, bootstrap_methods,
  RoutedRequest, Emission, error_subject, route_subject, request_bus, query_params_factory,
  dispatch, on_found, resolve, split_url,
}

module _ {E M : Type 0} where
  -- The bootstrapped entries come from the entries of the item.
  bootstrap_methods-AllIn :
      (P : Text → RoutingMethod E M → Type 0) (d : Dict (RoutingMethod E M))
      (acc : Dict (BootstrappedMethod E M))
      → AllIn P d
      → AllIn (λ k b. P k b.subject) acc
      → AllIn (λ k b. P k b.subject) (bootstrap_methods d acc)
  unfolding bootstrap_methods
  bootstrap_methods-AllIn P [] acc h k = k
  bootstrap_methods-AllIn P ((name, x) ∷ d) acc h k =
      bootstrap_methods-AllIn P d (insert name (bootstrap_method x) acc) h.1
        (AllIn-insert (λ k b. P k b.subject) name (bootstrap_method x) acc h.0 k)

  pub bootstrap_methods-lookup :
      (P : Text → RoutingMethod E M → Type 0) (d : Dict (RoutingMethod E M)) (name : Text)
      (b : BootstrappedMethod E M)
      → AllIn P d
      → lookup name (bootstrap_methods d []) ≡ some b
      → P name b.subject
  bootstrap_methods-lookup P d name b h e =
      AllIn-lookup (λ k b. P k b.subject) name b (bootstrap_methods d [])
        (bootstrap_methods-AllIn P d [] h tt) e

  bootstrap_methods-keep :
      (d : Dict (RoutingMethod E M)) (acc : Dict (BootstrappedMethod E M)) (m : Text)
      → is_some (lookup m acc) ≡ true
      → is_some (lookup m (bootstrap_methods d acc)) ≡ true
  unfolding bootstrap_methods
  bootstrap_methods-keep [] acc m h = h
  bootstrap_methods-keep ((name, x) ∷ d) acc m h =
      bootstrap_methods-keep d (insert name (bootstrap_method x) acc) m
        (ground (arith, lookup-insert name m (bootstrap_method x) acc))

  pub bootstrap_methods-is_some :
      (d : Dict (RoutingMethod E M)) (acc : Dict (BootstrappedMethod E M)) (m : Text)
      → is_some (lookup m d) ≡ true
      → is_some (lookup m (bootstrap_methods d acc)) ≡ true
  unfolding bootstrap_methods lookup
  bootstrap_methods-is_some [] acc m h = cc
  bootstrap_methods-is_some ((name, x) ∷ d) acc m h = elim (Bool-cases (name == m)) [
    | inl same ↦
        bootstrap_methods-keep d (insert name (bootstrap_method x) acc) m
          (ground (arith, lookup-insert name m (bootstrap_method x) acc))
    | inr other ↦
        bootstrap_methods-is_some d (insert name (bootstrap_method x) acc) m (ground arith)
  ]

-- The status of an error that `resolve` itself raises.
abbrev pub IsRouterStatus : HttpError → Type 0
IsRouterStatus e = (e.status ≡ 404) ⊎ (e.status ≡ 400) ⊎ (e.status ≡ 500)

-- The request is refused once, or handed once to one route and then once to the request bus.
abbrev pub IsAnswer : {E M Q : Type 0} → Text → Text → List (Emission E M Q) → Type 0
IsAnswer {E} {M} {Q} url method es =
    ((e : HttpError) × (es ≡ error_subject e ∷ []) × IsRouterStatus e)
    ⊎ ((x : RoutingMethod E M) × (r : RoutedRequest Q) × (es
          ≡ route_subject x r ∷ request_bus r ∷ [])
        × (r.url ≡ url)
        × (r.method ≡ method))

module _ {Q : Type 0} (parse_query : Text → Parsed Q) (no_query : Q) where
  dispatch-IsAnswer :
      {E M : Type 0} (route : RouteMatched E M) (url method : Text) (q : Parsed Q)
      → IsAnswer url method (dispatch route url method q)
  dispatch-IsAnswer route url method (parsed q) = inr (route.subject, _, refl, refl, refl)
  dispatch-IsAnswer route url method (thrown message) = inl (_, refl, inr (inr refl))

  on_found-IsAnswer :
      {E M : Type 0} (f : Found E M) (url method : Text) (query : Option Text)
      → IsAnswer url method (on_found parse_query no_query f url method query)
  unfolding route_not_found_error
  on_found-IsAnswer not_matched url method query = inl (_, refl, inl refl)
  on_found-IsAnswer (uri_error message) url method query = inl (_, refl, inr (inl refl))
  on_found-IsAnswer (matched route) url method query =
      dispatch-IsAnswer route url method (query_params_factory parse_query no_query query)

  module _ (decode : Text → Decoded) (engine : PathToRegexp) {E M : Type 0} where
    -- Whatever the request, `resolve` refuses it once with status 404, 400 or 500, or hands it once
    -- to one route and then once, unchanged, to the request bus.
    resolve-IsAnswer :
        (routing : Routing engine E M) (url method : Text)
        → IsAnswer url method (resolve parse_query no_query decode engine routing url method)
    unfolding resolve
    resolve-IsAnswer routing url method = on_found-IsAnswer _ url method (split_url url).1
