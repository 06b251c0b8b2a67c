-- ===== src/Http/Routing/Defaults.antt =====
-- The default route behind all others (`factorizeRoutingWithDefaults` of http.router.factory.ts).
use marble_js.Base.{◌≡◌, refl, some, true, List, [], ◌++◌, Text, codes, ◌⊎◌, inl, inr}
use marble_js.Http.Path.{PathToRegexp}
use marble_js.Http.Routing.Model.{Routes, nil, route, group, RoutingMethod, append_routes}
use marble_js.Http.Routing.Factory.{
  Factorized, factorized, redefinition, ◌>>=◌, Routing, can_override_route, add_route,
  factorize_from, factorize_routing, not_found, factorize_routing_with_defaults, concatenated_path,
}
use marble_js.Http.Routing.Precedence.{
  lookup_method, route_source, add_route-eq-redefinition_iff, factorize_from-lookup_method,
}
use marble_js.Http.Routing.Declared.{here, serves, factorize_from-serves}

Factorized-cases :
    {A : Type 0} (m : Factorized A)
    → ((a : A) × (m ≡ factorized a)) ⊎ ((n : Text) × (p : Text) × (m ≡ redefinition n p))
Factorized-cases (factorized a) = inl (a, refl)
Factorized-cases (redefinition n p) = inr (n, p, refl)

-- Two runs that go on alike after the same first step agree.
bind-regroup :
    {A B C : Type 0} (m : Factorized A) (f : A → Factorized B) (g : B → Factorized C)
    (k : A → Factorized C)
    → ((a : A) → k a ≡ (f a >>= g))
    → (m >>= k) ≡ ((m >>= f) >>= g)
bind-regroup (factorized a) f g k h = h a
bind-regroup (redefinition n p) f g k h = refl

module _ (engine : PathToRegexp) {E M : Type 0} where
  factorize_from-append_routes :
      (rs more : Routes E M) (ms : List M) (parent : Text) (items : Routing engine E M)
      → factorize_from engine (append_routes rs more) ms parent items
        ≡ (factorize_from engine rs ms parent items >>= factorize_from engine more ms parent)
  unfolding factorize_from append_routes
  factorize_from-append_routes nil more ms parent items = refl
  factorize_from-append_routes (route r rest) more ms parent items =
      bind-regroup (add_route engine r ms parent items) _ _ _
        (factorize_from-append_routes rest more ms parent)
  factorize_from-append_routes (group path gs rs rest) more ms parent items =
      bind-regroup (factorize_from engine rs (ms ++ gs) (concatenated_path parent path) []) _ _ _
        (λ inner. factorize_from-append_routes rest more ms parent (items ++ inner))

  -- An overridable route is never refused.
  not_found-add_route :
      (effect : E) (ms : List M) (items : Routing engine E M)
      → (items' : Routing engine E M) × (add_route engine (not_found effect) ms [] items
          ≡ factorized items')
  unfolding can_override_route not_found
  not_found-add_route effect ms items =
      elim (Factorized-cases (add_route engine (not_found effect) ms [] items)) [
        | inl done ↦ done
        | inr refused ↦
            let refusal =
              (add_route-eq-redefinition_iff engine (not_found {M = M} effect) ms [] items).0
                refused in
            absurd (cc refusal.0)
      ]

  -- With the default route the routing is built exactly when it is without, and refused for the
  -- same route; every definition stays, and the default path serves every method.
  factorize_routing_with_defaults_lem :
      (effect : E) (rs : Routes E M) (ms : List M) (items : Routing engine E M)
      → factorize_routing engine rs ms [] ≡ factorized items
      → (items' : Routing engine E M) × (factorize_routing_with_defaults engine effect rs ms
          ≡ factorized items')
        × (serves engine (route_source engine (not_found {M = M} effect) []) (codes "*") items'
            ≡ true)
        × ((s m : Text) (x : RoutingMethod E M)
            → lookup_method engine s m items ≡ some x
            → lookup_method engine s m items' ≡ some x)
  unfolding factorize_routing factorize_routing_with_defaults
  factorize_routing_with_defaults_lem effect rs ms items h =
      let (items', added) = not_found-add_route effect ms items in
      let last : factorize_from engine (route (not_found effect) nil) ms [] items
          ≡ factorized items' =
        unfold factorize_from in rw added refl in
      (
        items',
        rw (factorize_from-append_routes rs (route (not_found effect) nil) ms [] [], h) last,
        factorize_from-serves engine {routes = route (not_found effect) nil} {ms = ms} {ms' = ms}
            {parent = []} {p = []} items items' here last,
        λ s m x found.
            factorize_from-lookup_method engine (route (not_found effect) nil) ms [] s m items
              items' x last found,
      )

  factorize_routing_with_defaults-redefinition :
      (effect : E) (rs : Routes E M) (ms : List M) (name path : Text)
      → factorize_routing engine rs ms [] ≡ redefinition name path
      → factorize_routing_with_defaults engine effect rs ms ≡ redefinition name path
  unfolding factorize_routing factorize_routing_with_defaults
  factorize_routing_with_defaults-redefinition effect rs ms name path h =
      rw (factorize_from-append_routes rs (route (not_found effect) nil) ms [] [], h)

  -- A routing that was built with the default route serves the default path for every method.
  pub factorize_routing_with_defaults-serves :
      (effect : E) (rs : Routes E M) (ms : List M) (items : Routing engine E M)
      → factorize_routing_with_defaults engine effect rs ms ≡ factorized items
      → serves engine (route_source engine (not_found {M = M} effect) []) (codes "*") items ≡ true
  factorize_routing_with_defaults-serves effect rs ms items h =
      elim (Factorized-cases (factorize_routing engine rs ms [])) [
        | inl (plain, built) ↦
            let (items', full, served, _) =
              factorize_routing_with_defaults_lem effect rs ms plain built in
            let same : items' ≡ items = cc (full, h) in rw (← same) served
        | inr (name, path, refused) ↦
            let full =
              factorize_routing_with_defaults-redefinition effect rs ms name path refused in
            absurd (cc (full, h))
      ]
