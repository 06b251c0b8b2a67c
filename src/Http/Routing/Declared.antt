-- ===== src/Http/Routing/Declared.antt =====
-- The routing holds the declared routes, all of them and no others (http.router.factory.ts).
use marble_js.Base.{
  ◌≡◌, inl, inr, some, Bool, true, List, [], ◌∷◌, ◌++◌, Text, lookup, lookup-insert, ==_refl, find,
  is_some, arith, Option-cases, ◌&&◌, any,
}
use marble_js.Http.Path.{PathToRegexp}
use marble_js.Http.Routing.Model.{
  RouteEffect, Routes, nil, route, group, RoutingMethod, RoutingItem,
}
use marble_js.Http.Routing.Factory.{
  factorized, Routing, has_source, set_method, factorize_method, factorize_item, add_route,
  factorize_from, concatenated_path,
}
use marble_js.Http.Routing.Precedence.{factorize_from-route, factorize_from-group, route_source}

-- `Declares routes ms p r ms' p'`: below a parent with the middlewares `ms` and the path `p`, the
-- routes hold `r`, whose groups add up to the middlewares `ms'` and the path `p'`.
pub data Declares {E M : Type 0}
    : Routes E M → List M → Text → RouteEffect E M → List M → Text → Type 0 where
  here :
      {r : RouteEffect E M} {rest : Routes E M} {ms : List M} {p : Text}
      → Declares (route r rest) ms p r ms p
  later :
      {q r : RouteEffect E M} {rest : Routes E M} {ms ms' : List M} {p p' : Text}
      → Declares rest ms p r ms' p'
      → Declares (route q rest) ms p r ms' p'
  inside :
      {r : RouteEffect E M} {rs rest : Routes E M} {path : Text} {gs ms ms' : List M} {p p' : Text}
      → Declares rs (ms ++ gs) (concatenated_path p path) r ms' p'
      → Declares (group path gs rs rest) ms p r ms' p'
  behind :
      {r : RouteEffect E M} {rs rest : Routes E M} {path : Text} {gs ms ms' : List M} {p p' : Text}
      → Declares rest ms p r ms' p'
      → Declares (group path gs rs rest) ms p r ms' p'

module _ (engine : PathToRegexp) {E M : Type 0} where
  -- Some item has this source and this method.
  abbrev pub serves : Text → Text → Routing engine E M → Bool
  serves s m items = any (λ i. has_source engine s i && is_some (lookup m i.methods)) items

  serves-append_left :
      (s m : Text) (xs ys : Routing engine E M)
      → serves s m xs ≡ true
      → serves s m (xs ++ ys) ≡ true
  serves-append_left s m [] ys h = cc
  serves-append_left s m (x ∷ xs) ys h = ground (arith, serves-append_left s m xs ys)

  serves-append_right :
      (s m : Text) (xs ys : Routing engine E M)
      → serves s m ys ≡ true
      → serves s m (xs ++ ys) ≡ true
  serves-append_right s m [] ys h = h
  serves-append_right s m (x ∷ xs) ys h = ground (arith, serves-append_right s m xs ys h)

  serves-set_method :
      (s t name m : Text) (x : RoutingMethod E M) (items : Routing engine E M)
      → serves t m items ≡ true
      → serves t m (set_method engine s name x items) ≡ true
  unfolding set_method
  serves-set_method s t name m x [] h = h
  serves-set_method s t name m x (i ∷ items) h =
      ground (arith, serves-set_method s t name m x items, lookup-insert name m x i.methods)

  serves-set_method_self :
      (s name : Text) (x : RoutingMethod E M) (items : Routing engine E M)
      (item : RoutingItem E M engine)
      → find (has_source engine s) items ≡ some item
      → serves s name (set_method engine s name x items) ≡ true
  unfolding set_method
  serves-set_method_self s name x [] item h = cc
  serves-set_method_self s name x (i ∷ items) item h = ground (
    arith,
    serves-set_method_self s name x items item,
    lookup-insert name name x i.methods,
    ==_refl name,
  )

  serves-of_find :
      (s m : Text) (items : Routing engine E M) (item : RoutingItem E M engine)
      → find (has_source engine s) items ≡ some item
      → is_some (lookup m item.methods) ≡ true
      → serves s m items ≡ true
  serves-of_find s m [] item h k = cc
  serves-of_find s m (i ∷ items) item h k = ground (arith, serves-of_find s m items item)

  add_route-serves :
      (r : RouteEffect E M) (ms : List M) (parent : Text) (items items' : Routing engine E M)
      → add_route engine r ms parent items ≡ factorized items'
      → serves (route_source engine r parent) r.method items' ≡ true
  unfolding add_route lookup
  add_route-serves r ms parent items items' h =
      let src = route_source engine r parent in
      let x = factorize_method engine r ms parent in
      elim (Option-cases (find (has_source engine src) items)) [
        | inl missing ↦ ground (
          arith,
          serves-append_right src r.method items (factorize_item engine r ms parent ∷ []),
          ==_refl src,
          ==_refl r.method,
        )
        | inr (item, found) ↦ ground (
          arith,
          serves-of_find src r.method items item,
          serves-set_method_self src r.method x items item,
        )
      ]

  add_route-serves_keep :
      (r : RouteEffect E M) (ms : List M) (parent s m : Text) (items items' : Routing engine E M)
      → add_route engine r ms parent items ≡ factorized items'
      → serves s m items ≡ true
      → serves s m items' ≡ true
  unfolding add_route
  add_route-serves_keep r ms parent s m items items' h k =
      let src = route_source engine r parent in
      let x = factorize_method engine r ms parent in
      elim (Option-cases (find (has_source engine src) items)) [
        | inl missing ↦
            ground (arith, serves-append_left s m items (factorize_item engine r ms parent ∷ []) k)
        | inr (item, found) ↦ ground (arith, serves-set_method src s r.method m x items k)
      ]

  factorize_from-serves_keep :
      (routes : Routes E M) (ms : List M) (parent s m : Text) (items items' : Routing engine E M)
      → factorize_from engine routes ms parent items ≡ factorized items'
      → serves s m items ≡ true
      → serves s m items' ≡ true
  unfolding factorize_from
  factorize_from-serves_keep nil ms parent s m items items' h k = ground arith
  factorize_from-serves_keep (route r rest) ms parent s m items items' h k =
      let (next, added, done) = factorize_from-route engine r rest ms parent items items' h in
      factorize_from-serves_keep rest ms parent s m next items' done
        (add_route-serves_keep r ms parent s m items next added k)
  factorize_from-serves_keep (group path gs rs rest) ms parent s m items items' h k =
      let (inner, made, done) =
        factorize_from-group engine path gs rs rest ms parent items items' h in
      factorize_from-serves_keep rest ms parent s m (items ++ inner) items' done
        (serves-append_left s m items inner k)

  -- Every declared route, at any depth of groups, is served by some routing item: one with its
  -- regular expression that has its method.
  pub factorize_from-serves :
      {routes : Routes E M} {ms ms' : List M} {parent p : Text} {r : RouteEffect E M}
      (items items' : Routing engine E M)
      → Declares routes ms parent r ms' p
      → factorize_from engine routes ms parent items ≡ factorized items'
      → serves (route_source engine r p) r.method items' ≡ true
  factorize_from-serves {ms} {parent} items items' (here {r = r} {rest = rest}) h =
      let (next, added, done) = factorize_from-route engine r rest ms parent items items' h in
      factorize_from-serves_keep rest ms parent _ r.method next items' done
        (add_route-serves r ms parent items next added)
  factorize_from-serves {ms} {parent} items items' (later {q = q} {rest = rest} d) h =
      let (next, added, done) = factorize_from-route engine q rest ms parent items items' h in
      factorize_from-serves next items' d done
  factorize_from-serves {ms} {parent} items items'
        (inside {r = r} {rs = rs} {rest = rest} {path = path} {gs = gs} d) h =
      let (inner, made, done) =
        factorize_from-group engine path gs rs rest ms parent items items' h in
      factorize_from-serves_keep rest ms parent _ r.method (items ++ inner) items' done
        (serves-append_right _ r.method items inner (factorize_from-serves [] inner d made))
  factorize_from-serves {ms} {parent} items items'
        (behind {rs = rs} {rest = rest} {path = path} {gs = gs} d) h =
      let (inner, made, done) =
        factorize_from-group engine path gs rs rest ms parent items items' h in
      factorize_from-serves (items ++ inner) items' d done
