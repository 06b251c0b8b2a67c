-- ===== src/Http/Routing/Precedence.antt =====
-- Which definition a routing holds for a path and a method (http.router.factory.ts).
use marble_js.Base.{
  ◌≡◌, refl, ◌≢◌, ◌⊎◌, inl, inr, ◌↔◌, Option, none, some, false, List, [], ◌∷◌, ◌++◌, Text, lookup,
  lookup-insert, ◌==◌, ==_iff, find, if◌then◌else◌, arith, Option-cases, or_option, ◌&&◌,
}
use marble_js.Http.Path.{PathToRegexp, ParametricRegExp, factorize_reg_exp_with_params}
use marble_js.Http.Routing.Model.{
  RouteEffect, Routes, nil, route, group, RoutingMethod, RoutingItem,
}
use marble_js.Http.Routing.Factory.{
  Factorized, factorized, redefinition, ◌>>=◌, Routing, has_source, set_method, can_override_route,
  factorize_method, factorize_item, add_route, factorize_from, concatenated_path,
  replace_double_slashes,
}

pub >>=-eq-factorized {ℓ κ} :
    {A : Type ℓ} {B : Type κ} (m : Factorized A) (f : A → Factorized B) {b : B}
    → (m >>= f) ≡ factorized b
    → (a : A) × (m ≡ factorized a) × (f a ≡ factorized b)
>>=-eq-factorized (factorized a) f h = (a, refl, h)
>>=-eq-factorized (redefinition m p) f h = cc

module _ (engine : PathToRegexp) {E M : Type 0} where
  abbrev pub methods_of : Text → Option (RoutingItem E M engine) → Option (RoutingMethod E M)
  methods_of name none = none
  methods_of name (some item) = lookup name item.methods

  -- The definition of a method in the first item with this source.
  abbrev pub lookup_method : Text → Text → Routing engine E M → Option (RoutingMethod E M)
  lookup_method s name items = methods_of name (find (has_source engine s) items)

  -- the source of the regular expression of a route
  abbrev pub route_source : RouteEffect E M → Text → Text
  route_source r parent = engine.source (
      ParametricRegExp.reg_exp
        (factorize_reg_exp_with_params engine (concatenated_path parent r.path)))

  find-append :
      (s : Text) (xs ys : Routing engine E M) (item : RoutingItem E M engine)
      → find (has_source engine s) xs ≡ some item
      → find (has_source engine s) (xs ++ ys) ≡ some item
  find-append s [] ys item h = cc
  find-append s (x ∷ xs) ys item h = ground (arith, find-append s xs ys item)

  lookup_method-append_item :
      (s m : Text) (xs : Routing engine E M) (i : RoutingItem E M engine)
      → find (has_source engine (engine.source i.reg_exp)) xs ≡ none
      → lookup_method s m (xs ++ i ∷ [])
        ≡ or_option (lookup_method s m xs) (lookup_method s m (i ∷ []))
  lookup_method-append_item s m [] i h = refl
  lookup_method-append_item s m (x ∷ xs) i h = ground (
    arith,
    lookup_method-append_item s m xs i,
    ==_iff (engine.source x.reg_exp) s,
    ==_iff (engine.source i.reg_exp) s,
    ==_iff (engine.source x.reg_exp) (engine.source i.reg_exp),
  )

  -- A definition that is found stays found when items are put behind it.
  lookup_method-append :
      (s m : Text) (xs ys : Routing engine E M) (x : RoutingMethod E M)
      → lookup_method s m xs ≡ some x
      → lookup_method s m (xs ++ ys) ≡ some x
  lookup_method-append s m xs ys x h = elim (Option-cases (find (has_source engine s) xs)) [
    | inl missing ↦ ground arith
    | inr (item, found) ↦ ground (arith, find-append s xs ys item)
  ]

  lookup_method-set_method :
      (s t name m : Text) (x : RoutingMethod E M) (items : Routing engine E M)
      (item : RoutingItem E M engine)
      → find (has_source engine s) items ≡ some item
      → lookup_method t m (set_method engine s name x items)
        ≡ (if s == t && name == m then some x else lookup_method t m items)
  unfolding set_method
  lookup_method-set_method s t name m x [] item h = cc
  lookup_method-set_method s t name m x (i ∷ items) item h = ground (
    arith,
    lookup_method-set_method s t name m x items item,
    lookup-insert name m x i.methods,
    ==_iff (engine.source i.reg_exp) s,
    ==_iff (engine.source i.reg_exp) t,
    ==_iff s t,
  )

  -- After a route is added, each path and method has the definition that it had before, or else the
  -- one of the route if they are its own.
  add_route-lookup_method :
      (r : RouteEffect E M) (ms : List M) (parent s m : Text) (items items' : Routing engine E M)
      → add_route engine r ms parent items ≡ factorized items'
      → lookup_method s m items'
        ≡ or_option (lookup_method s m items) (
            if route_source r parent == s && r.method == m
            then some (factorize_method engine r ms parent)
            else none)
  unfolding add_route lookup
  add_route-lookup_method r ms parent s m items items' h =
      let src = route_source r parent in
      elim (Option-cases (find (has_source engine src) items)) [
        | inl missing ↦
            ground (arith, lookup_method-append_item s m items (factorize_item engine r ms parent))
        | inr (item, found) ↦ ground (
          arith,
          ==_iff src s,
          ==_iff r.method m,
          lookup_method-set_method src s r.method m (factorize_method engine r ms parent) items
              item,
        )
      ]

  -- What a successful round does to the routing.
  pub add_route-cases :
      (r : RouteEffect E M) (ms : List M) (parent : Text) (items items' : Routing engine E M)
      → add_route engine r ms parent items ≡ factorized items'
      → (items' ≡ items)
        ⊎ (items' ≡ items ++ factorize_item engine r ms parent ∷ [])
        ⊎ (items'
            ≡ set_method engine
                (route_source r parent)
                r.method
                (factorize_method engine r ms parent)
                items)
  unfolding add_route
  add_route-cases r ms parent items items' h = ground arith

  -- A route is refused exactly when it is not overridable and the first item with its regular
  -- expression has its method already.
  pub add_route-eq-redefinition_iff :
      (r : RouteEffect E M) (ms : List M) (parent : Text) (items : Routing engine E M)
      → ((name : Text) × (path : Text) × (add_route engine r ms parent items
            ≡ redefinition name path))
        ↔ ((can_override_route r ≡ false)
            × (lookup_method (route_source r parent) r.method items ≢ none))
  unfolding add_route
  add_route-eq-redefinition_iff r ms parent items =
      let src = route_source r parent in
      elim (Option-cases (find (has_source engine src) items)) [
        | inl missing ↦ (λ h. ground arith, λ h. absurd (ground arith))
        | inr (item, found) ↦ (
          λ h. ground arith,
          λ h. (r.method, replace_double_slashes (parent ++ r.path), ground arith),
        )
      ]

  -- Inversion of a successful run, for a list that begins with a route and one with a group.
  pub factorize_from-route :
      (r : RouteEffect E M) (rest : Routes E M) (ms : List M) (parent : Text)
      (items items' : Routing engine E M)
      → factorize_from engine (route r rest) ms parent items ≡ factorized items'
      → (next : Routing engine E M) × (add_route engine r ms parent items ≡ factorized next)
        × (factorize_from engine rest ms parent next ≡ factorized items')
  unfolding factorize_from
  factorize_from-route r rest ms parent items items' h =
      >>=-eq-factorized (add_route engine r ms parent items) _ h

  pub factorize_from-group :
      (path : Text) (gs : List M) (rs rest : Routes E M) (ms : List M) (parent : Text)
      (items items' : Routing engine E M)
      → factorize_from engine (group path gs rs rest) ms parent items ≡ factorized items'
      → (inner : Routing engine E M) × (factorize_from engine rs
            (ms ++ gs)
            (concatenated_path parent path)
            []
          ≡ factorized inner)
        × (factorize_from engine rest ms parent (items ++ inner) ≡ factorized items')
  unfolding factorize_from
  factorize_from-group path gs rs rest ms parent items items' h =
      >>=-eq-factorized (factorize_from engine rs (ms ++ gs) (concatenated_path parent path) []) _ h

  -- Factorizing further routes leaves every definition alone that a lookup finds.
  pub factorize_from-lookup_method :
      (routes : Routes E M) (ms : List M) (parent s m : Text) (items items' : Routing engine E M)
      (x : RoutingMethod E M)
      → factorize_from engine routes ms parent items ≡ factorized items'
      → lookup_method s m items ≡ some x
      → lookup_method s m items' ≡ some x
  unfolding factorize_from
  factorize_from-lookup_method nil ms parent s m items items' x h k = ground arith
  factorize_from-lookup_method (route r rest) ms parent s m items items' x h k =
      let (next, added, done) = factorize_from-route r rest ms parent items items' h in
      factorize_from-lookup_method rest ms parent s m next items' x done
        (rw (add_route-lookup_method r ms parent s m items next added, k))
  factorize_from-lookup_method (group path gs rs rest) ms parent s m items items' x h k =
      let (inner, made, done) = factorize_from-group path gs rs rest ms parent items items' h in
      factorize_from-lookup_method rest ms parent s m (items ++ inner) items' x done
        (lookup_method-append s m items inner x k)
