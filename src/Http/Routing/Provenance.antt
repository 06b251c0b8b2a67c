-- ===== src/Http/Routing/Provenance.antt =====
-- Where the entries of a routing come from (http.router.factory.ts).
use marble_js.Base.{
  ◌≡◌, refl, sym, inl, inr, List, [], ◌∷◌, ◌++◌, Text, ==_sound, append_assoc, append-nil, ◌∙◌,
  arith, Bool-cases, All, All-append, AllIn, AllIn-insert,
}
use marble_js.Http.Path.{PathToRegexp}
use marble_js.Http.Routing.Model.{RouteEffect, Routes, nil, route, group, RoutingMethod}
use marble_js.Http.Routing.Factory.{
  factorized, Routing, has_source, set_method, factorize_method, factorize_item, add_route,
  factorize_from, concatenated_path, factorize_routing, insert_if_some,
}
use marble_js.Http.Routing.Precedence.{
  add_route-cases, factorize_from-route, factorize_from-group, route_source,
}
use marble_js.Http.Routing.Declared.{Declares, here, later, inside, behind}

module _ (engine : PathToRegexp) {E M : Type 0} where
  module _ (P : Text → Text → RoutingMethod E M → Type 0) where
    -- `P` holds of the source, the method and the definition of every entry.
    abbrev pub AllEntries : Routing engine E M → Type 0
    AllEntries items = All (λ i. AllIn (P (engine.source i.reg_exp)) i.methods) items

    AllEntries-set_method :
        (s name : Text) (x : RoutingMethod E M) (items : Routing engine E M)
        → P s name x
        → AllEntries items
        → AllEntries (set_method engine s name x items)
    unfolding set_method
    AllEntries-set_method s name x [] px h = tt
    AllEntries-set_method s name x (i ∷ items) px h = elim (Bool-cases (has_source engine s i)) [
      | inl same ↦ rw same (
        AllIn-insert (P (engine.source i.reg_exp)) name x i.methods
            (rw (==_sound (engine.source i.reg_exp) s same) px) h.0,
        h.1,
      )
      | inr other ↦ rw other (h.0, AllEntries-set_method s name x items px h.1)
    ]

    add_route-AllEntries :
        (r : RouteEffect E M) (ms : List M) (parent : Text) (items items' : Routing engine E M)
        → P (route_source engine r parent) r.method (factorize_method engine r ms parent)
        → AllEntries items
        → add_route engine r ms parent items ≡ factorized items'
        → AllEntries items'
    unfolding factorize_item
    add_route-AllEntries r ms parent items items' px h e =
        elim (add_route-cases engine r ms parent items items' e) [
          | inl same ↦ rw same h
          | inr (inl new) ↦ rw new (All-append _ items _ h ((px, tt), tt))
          | inr (inr set) ↦ rw set (AllEntries-set_method _ r.method _ items px h)
        ]

    factorize_from-AllEntries :
        (routes : Routes E M) (ms : List M) (parent : Text) (items items' : Routing engine E M)
        → ((r : RouteEffect E M) (ms' : List M) (p : Text)
            → Declares routes ms parent r ms' p
            → P (route_source engine r p) r.method (factorize_method engine r ms' p))
        → AllEntries items
        → factorize_from engine routes ms parent items ≡ factorized items'
        → AllEntries items'
    unfolding factorize_from
    factorize_from-AllEntries nil ms parent items items' f h e = ground arith
    factorize_from-AllEntries (route r rest) ms parent items items' f h e =
        let (next, added, done) = factorize_from-route engine r rest ms parent items items' e in
        factorize_from-AllEntries rest ms parent next items' (λ q ms' p d. f q ms' p (later d))
          (add_route-AllEntries r ms parent items next (f r ms parent here) h added) done
    factorize_from-AllEntries (group path gs rs rest) ms parent items items' f h e =
        let (inner, made, done) =
          factorize_from-group engine path gs rs rest ms parent items items' e in
        factorize_from-AllEntries rest ms parent (items ++ inner) items'
          (λ q ms' p d. f q ms' p (behind d))
          (All-append _ items inner h (
            factorize_from-AllEntries rs (ms ++ gs) (concatenated_path parent path) [] inner
              (λ q ms' p d. f q ms' p (inside d)) tt made))
          done

  -- An entry that a declared route accounts for: its regular expression, its method, and its
  -- definition with the middlewares of the enclosing groups in front of the route's own.
  abbrev pub IsDeclared : Routes E M → List M → Text → Text → Text → RoutingMethod E M → Type 0
  IsDeclared routes ms parent s name x =
      (r : RouteEffect E M) × (ms' : List M) × (p : Text) × Declares routes ms parent r ms' p
      × (s ≡ route_source engine r p)
      × (name ≡ r.method)
      × (x ≡ factorize_method engine r ms' p)

  -- Every entry of a routing comes from a declared route.
  pub factorize_routing-IsDeclared :
      (routes : Routes E M) (ms : List M) (parent : Text) (items : Routing engine E M)
      → factorize_routing engine routes ms parent ≡ factorized items
      → AllEntries (IsDeclared routes ms parent) items
  unfolding factorize_routing
  factorize_routing-IsDeclared routes ms parent items e =
      factorize_from-AllEntries (IsDeclared routes ms parent) routes ms parent [] items
        (λ r ms' p d. (r, ms', p, d, refl, refl, refl)) tt e

  Declares-middlewares :
      {routes : Routes E M} {ms ms' : List M} {parent p : Text} {r : RouteEffect E M}
      → Declares routes ms parent r ms' p
      → (rest : List M) × (ms' ≡ ms ++ rest)
  Declares-middlewares {ms} here = ([], sym (append-nil ms))
  Declares-middlewares (later d) = Declares-middlewares d
  Declares-middlewares {ms} (inside {gs = gs} d) =
      let (rest, e) = Declares-middlewares d in (gs ++ rest, e ∙ append_assoc ms gs rest)
  Declares-middlewares (behind d) = Declares-middlewares d

  abbrev pub Inherits : List M → Text → Text → RoutingMethod E M → Type 0
  Inherits ms s name x = (rest : List M) × (x.middlewares ≡ ms ++ rest)

  -- No route escapes the middlewares of its parent: they stand first, in their order, in front of
  -- the middlewares of every entry.
  pub factorize_routing-middlewares :
      (routes : Routes E M) (ms : List M) (parent : Text) (items : Routing engine E M)
      → factorize_routing engine routes ms parent ≡ factorized items
      → AllEntries (Inherits ms) items
  unfolding factorize_routing factorize_method
  factorize_routing-middlewares routes ms parent items e =
      factorize_from-AllEntries (Inherits ms) routes ms parent [] items
        (λ r ms' p d.
          let (rest, same) = Declares-middlewares d in
          (rest ++ insert_if_some r.middleware, rw same (append_assoc ms rest _)))
        tt e
