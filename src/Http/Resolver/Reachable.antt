-- ===== src/Http/Resolver/Reachable.antt =====
-- From the declared routes to the answer of `resolve` (http.router.factory.ts and
-- http.router.resolver.ts together).
use marble_js.Base.{
  ◌≡◌, refl, sym, ◌∙◌, ap, ◌⊎◌, inl, inr, ◌≢◌, Option, none, some, List, [], ◌∷◌, map, Text, codes,
  Dict, lookup, arith, All, All-append-right,
}
use marble_js.Http.Path.{PathToRegexp}
use marble_js.Http.Routing.Model.{RouteEffect, Routes, RoutingMethod}
use marble_js.Http.Routing.Factory.{factorized, Routing, factorize_method, factorize_routing}
use marble_js.Http.Routing.Precedence.{route_source}
use marble_js.Http.Routing.Declared.{Declares}
use marble_js.Http.Routing.Provenance.{AllEntries, IsDeclared, factorize_routing-IsDeclared}
use marble_js.Http.Matcher.{
  Decoded, BootstrappedMethod, BootstrappedRoutingItem, Found, not_matched, uri_error, matched,
  match_route, found_in, Bound, bound, unbound, matched_method, bind_parameters,
}
use marble_js.Http.Matcher.First.{match_route-IsChosen}
use marble_js.Http.Resolver.{
  Parsed, parsed, thrown, bootstrap_item, RoutedRequest, Emission, route_subject, dispatch,
  query_params_factory, on_found, resolve, split_url,
}
use marble_js.Http.Resolver.Outcome.{bootstrap_methods-lookup}

matched_method-cases :
    {E M : Type 0} (method : Text) (d : Dict (BootstrappedMethod E M)) (b : BootstrappedMethod E M)
    → matched_method method d ≡ some b
    → (lookup method d ≡ some b) ⊎ (lookup (codes "*") d ≡ some b)
unfolding matched_method
matched_method-cases method d b h = ground arith

module _ {Q : Type 0} (parse_query : Text → Parsed Q) (no_query : Q) where
  dispatch-subject :
      {E M : Type 0} (b : BootstrappedMethod E M) (path url method : Text) (params : Dict Text)
      (q : Parsed Q) (x : RoutingMethod E M) (r : RoutedRequest Q) (rest : List (Emission E M Q))
      → dispatch (record { subject = b.subject; params = params; path = path }) url method q
        ≡ route_subject x r ∷ rest
      → b.subject ≡ x
  dispatch-subject b path url method params (parsed q) x r rest h = ground arith
  dispatch-subject b path url method params (thrown m) x r rest h = absurd (ground arith)

  on_found-subject :
      {E M : Type 0} (b : BootstrappedMethod E M) (path url method : Text) (ps : Bound)
      (query : Option Text) (x : RoutingMethod E M) (r : RoutedRequest Q)
      (rest : List (Emission E M Q))
      → on_found parse_query no_query (found_in b path ps) url method query
        ≡ route_subject x r ∷ rest
      → b.subject ≡ x
  on_found-subject b path url method (unbound m) query x r rest h = absurd (ground arith)
  on_found-subject b path url method (bound ps) query x r rest h =
      dispatch-subject b path url method ps (query_params_factory parse_query no_query query) x r
        rest h

  on_found-not_matched :
      {E M : Type 0} (url method : Text) (query : Option Text) (x : RoutingMethod E M)
      (r : RoutedRequest Q) (rest : List (Emission E M Q)) (f : Found E M)
      → on_found parse_query no_query f url method query ≡ route_subject x r ∷ rest
      → f ≢ not_matched
  on_found-not_matched url method query x r rest not_matched h e = absurd (ground arith)
  on_found-not_matched url method query x r rest (uri_error m) h e = cc
  on_found-not_matched url method query x r rest (matched t) h e = cc

module _ (engine : PathToRegexp) {E M : Type 0} (P : Text → Text → RoutingMethod E M → Type 0) where
  -- `P` holds of the source and of what each lookup in the bootstrapped item finds.
  abbrev EntriesHold : BootstrappedRoutingItem E M engine → Type 0
  EntriesHold i =
      (k : Text) (b : BootstrappedMethod E M)
      → lookup k i.methods ≡ some b
      → P (engine.source i.reg_exp) k b.subject

  bootstrap_items-EntriesHold :
      (items : Routing engine E M)
      → AllEntries engine P items
      → All EntriesHold (map bootstrap_item items)
  unfolding bootstrap_item
  bootstrap_items-EntriesHold [] h = tt
  bootstrap_items-EntriesHold (i ∷ items) h = (
    λ k b e. bootstrap_methods-lookup (P (engine.source i.reg_exp)) i.methods k b h.0 e,
    bootstrap_items-EntriesHold items h.1,
  )

module _ (engine : PathToRegexp) {E M : Type 0} where
  -- A declared route, with the middlewares and the path of its groups, that answers: the definition
  -- is its own, it has the method or `*`, and its regular expression matches the path of the url.
  abbrev pub Answers : Routes E M → List M → Text → Text → RoutingMethod E M → Type 0
  Answers routes ms url method x =
      (q : RouteEffect E M) × (ms' : List M) × (p : Text) × Declares routes ms [] q ms' p
      × (x ≡ factorize_method engine q ms' p)
      × ((q.method ≡ method) ⊎ (q.method ≡ codes "*"))
      × (g : engine.RegExp) × (engine.source g ≡ route_source engine q p)
      × (engine.exec g (split_url url).0 ≢ none)

  Answers-of_entry :
      (routes : Routes E M) (ms : List M) (url method name : Text) (x : RoutingMethod E M)
      (g : engine.RegExp)
      → IsDeclared engine routes ms [] (engine.source g) name x
      → (name ≡ method) ⊎ (name ≡ codes "*")
      → engine.exec g (split_url url).0 ≢ none
      → Answers routes ms url method x
  Answers-of_entry routes ms url method name x g (q, ms', p, d, es, en, ex) m h =
      (q, ms', p, d, ex, ground arith, g, es, h)

module _ {Q : Type 0} (parse_query : Text → Parsed Q) (no_query : Q) (decode : Text → Decoded)
    (engine : PathToRegexp) {E M : Type 0} where
  -- A request that reaches a route reaches one that was declared, at any depth of groups, under its
  -- full path and behind all the middlewares of its groups: its regular expression matches the path
  -- of the url, and its method is the request's or `*`.
  pub resolve-Answers :
      (routes : Routes E M) (ms : List M) (items : Routing engine E M) (url method : Text)
      (x : RoutingMethod E M) (r : RoutedRequest Q) (rest : List (Emission E M Q))
      → factorize_routing engine routes ms [] ≡ factorized items
      → resolve parse_query no_query decode engine items url method ≡ route_subject x r ∷ rest
      → Answers engine routes ms url method x
  unfolding resolve
  resolve-Answers routes ms items url method x r rest built h =
      let path = (split_url url).0 in
      let found = match_route decode engine (map bootstrap_item items) path method in
      let c =
        match_route-IsChosen decode engine (map bootstrap_item items) path method (
          on_found-not_matched parse_query no_query url method (split_url url).1 x r rest found
            h) in
      let hold =
        bootstrap_items-EntriesHold engine (IsDeclared engine routes ms []) items
          (factorize_routing-IsDeclared engine routes ms [] items built) in
      let here =
        (All-append-right (EntriesHold engine (IsDeclared engine routes ms [])) c.before
          (c.item ∷ c.after) (rw c.split at hold)).0 in
      let same : c.entry.subject ≡ x =
        on_found-subject parse_query no_query c.entry c.item.path url method
          (bind_parameters decode c.entry.parameters c.captures) (split_url url).1 x r rest
          (ap (λ f. on_found parse_query no_query f url method (split_url url).1) (sym c.result)
            ∙ h) in
      let matches : engine.exec c.item.reg_exp path ≢ none = λ e. cc (c.matches) in
      rw (← same) (elim (matched_method-cases method c.item.methods c.entry c.has_method) [
        | inl own ↦
            Answers-of_entry engine routes ms url method method c.entry.subject c.item.reg_exp
              (here method c.entry own) (inl refl) matches
        | inr star ↦
            Answers-of_entry engine routes ms url method (codes "*") c.entry.subject c.item.reg_exp
              (here (codes "*") c.entry star) (inr refl) matches
      ])
