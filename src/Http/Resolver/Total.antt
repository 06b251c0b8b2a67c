-- ===== src/Http/Resolver/Total.antt =====
-- Every request finds a route, if only the default one (http.router.factory.ts and
-- http.router.resolver.ts together).
use marble_js.Base.{
  ◌≡◌, refl, sym, ◌∙◌, inl, inr, ◌≢◌, Option, none, true, List, [], ◌∷◌, map, Text, codes, Dict,
  lookup, ==_sound, is_some, arith, All, Bool-cases,
}
use marble_js.Http.Path.{PathToRegexp, prepare_path, factorize_reg_exp_with_params}
use marble_js.Http.Routing.Model.{Routes, RoutingItem}
use marble_js.Http.Routing.Factory.{
  factorized, Routing, not_found, factorize_routing_with_defaults, has_source,
}
use marble_js.Http.Routing.Declared.{serves}
use marble_js.Http.Routing.Defaults.{factorize_routing_with_defaults-serves}
use marble_js.Http.Matcher.{
  Decoded, BootstrappedMethod, Found, not_matched, uri_error, matched, RouteMatched, matched_method,
}
use marble_js.Http.Matcher.First.{IsPassed, match_route-eq-not_matched_iff}
use marble_js.Http.Resolver.{
  route_not_found_error, Parsed, parsed, thrown, bootstrap_methods, bootstrap_item, error_subject,
  dispatch, on_found, resolve, split_url,
}
use marble_js.Http.Resolver.Outcome.{bootstrap_methods-is_some}

matched_method-star :
    {E M : Type 0} (method : Text) (d : Dict (BootstrappedMethod E M))
    → is_some (lookup (codes "*") d) ≡ true
    → matched_method method d ≢ none
unfolding matched_method
matched_method-star method d h = ground arith

module _ (engine : PathToRegexp) {E M : Type 0} where
  passed-star :
      (s path method : Text) (i : RoutingItem E M engine)
      → ((h : engine.RegExp) → engine.source h ≡ s → engine.exec h path ≢ none)
      → has_source engine s i ≡ true
      → is_some (lookup (codes "*") i.methods) ≡ true
      → IsPassed engine path method (bootstrap_item i)
      → ⊥
  unfolding bootstrap_item
  passed-star s path method i m same has (inl misses) =
      m i.reg_exp (==_sound (engine.source i.reg_exp) s same) misses
  passed-star s path method i m same has (inr lacks) =
      matched_method-star method (bootstrap_methods i.methods [])
        (bootstrap_methods-is_some i.methods [] (codes "*") has) lacks

  serves-not_passed :
      (s path method : Text) (items : Routing engine E M)
      → ((h : engine.RegExp) → engine.source h ≡ s → engine.exec h path ≢ none)
      → serves engine s (codes "*") items ≡ true
      → All (IsPassed engine path method) (map bootstrap_item items)
      → ⊥
  serves-not_passed s path method [] m h a = cc
  serves-not_passed s path method (i ∷ items) m h a =
      elim (Bool-cases (serves engine s (codes "*") items)) [
        | inl later ↦ serves-not_passed s path method items m later a.1
        | inr not_later ↦ passed-star s path method i m (ground arith) (ground arith) a.0
      ]

  module _ {Q : Type 0} (parse_query : Text → Parsed Q) (no_query : Q)
      (decode : Text → Decoded) where
    dispatch-ne-not_found :
        (t : RouteMatched E M) (url method : Text) (q : Parsed Q)
        → dispatch t url method q ≢ error_subject route_not_found_error ∷ []
    unfolding route_not_found_error
    dispatch-ne-not_found t url method (parsed q) h = cc
    dispatch-ne-not_found t url method (thrown m) h = ground arith

    on_found-eq-not_found :
        (f : Found E M) (url method : Text) (query : Option Text)
        → on_found parse_query no_query f url method query
          ≡ error_subject route_not_found_error ∷ []
        → f ≡ not_matched
    unfolding route_not_found_error
    on_found-eq-not_found not_matched url method query h = refl
    on_found-eq-not_found (uri_error m) url method query h = ground arith
    on_found-eq-not_found (matched t) url method query h =
        absurd (dispatch-ne-not_found t url method _ h)

    -- With the default route behind the others no request is left without a route: `resolve` does
    -- not answer "Route not found" itself, if the expression of the default path matches the path of
    -- the url, and expressions with one source match alike.
    pub resolve-ne-not_found :
        (effect : E) (routes : Routes E M) (ms : List M) (items : Routing engine E M)
        (url method : Text)
        → ((g h : engine.RegExp) (s : Text)
            → engine.source g ≡ engine.source h
            → engine.exec g s ≡ engine.exec h s)
        → engine.exec (engine.compile (codes "/(.*)")) (split_url url).0 ≢ none
        → factorize_routing_with_defaults engine effect routes ms ≡ factorized items
        → resolve parse_query no_query decode engine items url method
          ≢ error_subject route_not_found_error ∷ []
    unfolding resolve not_found factorize_reg_exp_with_params prepare_path
    resolve-ne-not_found effect routes ms items url method alike catch built h =
        serves-not_passed _ (split_url url).0 method items
          (λ g e misses. catch (sym (alike g (engine.compile (codes "/(.*)")) _ e) ∙ misses))
          (factorize_routing_with_defaults-serves engine effect routes ms items built)
          ((match_route-eq-not_matched_iff decode engine (map bootstrap_item items)
              (split_url url).0 method).0
            (on_found-eq-not_found _ url method (split_url url).1 h))
