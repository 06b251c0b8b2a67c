-- ===== src/Http/Routing/Factory.antt =====
-- http.router.factory.ts.
use marble_js.Base.{
  Option, none, some, Bool, true, false, not, ◌&&◌, List, [], ◌∷◌, ◌++◌, Text, codes, eqb, lookup,
  insert, ◌==◌, find, is_some, if◌then◌else◌,
}
use marble_js.Http.Path.{PathToRegexp, ParametricRegExp, factorize_reg_exp_with_params}
use marble_js.Http.Routing.Model.{
  RouteMeta, RouteEffect, Routes, nil, route, group, RoutingMethod, RoutingItem, append_routes,
}

-- The error that `factorizeRouting` throws, with the method and the path that its message names.
pub data Factorized {ℓ} (A : Type ℓ) : Type ℓ where
  factorized : A → Factorized A
  redefinition : Text → Text → Factorized A

infixl 5 ◌>>=◌
abbrev pub ◌>>=◌ {ℓ κ} :
    {A : Type ℓ} {B : Type κ} → Factorized A → (A → Factorized B) → Factorized B
factorized a >>= f = f a
redefinition m p >>= f = redefinition m p

-- `route.meta?.overridable === true`
abbrev is_true : Option Bool → Bool
is_true (some true) = true
is_true _ = false

abbrev meta_overridable : Option RouteMeta → Bool
meta_overridable none = false
meta_overridable (some m) = is_true m.overridable

-- `insertIf(!!route.middleware)(route.middleware)`
abbrev pub insert_if_some {ℓ} : {A : Type ℓ} → Option A → List A
insert_if_some none = []
insert_if_some (some a) = a ∷ []

-- `parentPath + '/' + route.path`
abbrev pub concatenated_path : Text → Text → Text
concatenated_path parent path = parent ++ codes "/" ++ path

-- `.replace(/\/\//g, '/')`, in the error message: pairs of slashes, from the left
unfoldable pub replace_double_slashes : Text → Text
replace_double_slashes [] = []
replace_double_slashes (c ∷ []) = c ∷ []
replace_double_slashes (c ∷ d ∷ s) =
    let pair = b'/' ∷ replace_double_slashes s in
    let single = c ∷ replace_double_slashes (d ∷ s) in
    if eqb c b'/' && eqb d b'/' then pair else single

abbrev pub Routing : PathToRegexp → Type 0 → Type 0 → Type 0
Routing engine E M = List (RoutingItem E M engine)

unfoldable pub can_override_route : {E M : Type 0} → RouteEffect E M → Bool
can_override_route r = meta_overridable r.meta

-- `notFound$` of http.router.effects.ts, with its effect given
unfoldable pub not_found : {E M : Type 0} → E → RouteEffect E M
not_found effect = record {
  path = codes "*";
  method = codes "*";
  effect = effect;
  middleware = none;
  meta = some (record { name = none; continuous = none; overridable = some true });
}

module _ (engine : PathToRegexp) {E M : Type 0} where
  open engine use {source}

  -- `route.regExp.source === regExp.source`
  abbrev pub has_source : Text → RoutingItem E M engine → Bool
  has_source s item = source item.reg_exp == s

  -- `foundRoute.methods[route.method] = method` on the item that `find` returned
  unfoldable pub set_method :
      Text → Text → RoutingMethod E M → Routing engine E M → Routing engine E M
  set_method s name method [] = []
  set_method s name method (item ∷ items) =
      if has_source s item
      then record item { methods = insert name method item.methods } ∷ items
      else item ∷ set_method s name method items

  -- the `method` that the loop builds for a route
  unfoldable pub factorize_method : RouteEffect E M → List M → Text → RoutingMethod E M
  factorize_method r middlewares parent = record {
    parameters =
        ParametricRegExp.parameters
          (factorize_reg_exp_with_params engine (concatenated_path parent r.path));
    middlewares = middlewares ++ insert_if_some r.middleware;
    effect = r.effect;
    meta = r.meta;
  }

  -- the routing item of a route that is the first with its regular expression
  unfoldable pub factorize_item : RouteEffect E M → List M → Text → RoutingItem E M engine
  unfolding factorize_method
  factorize_item r middlewares parent =
      let parametric = factorize_reg_exp_with_params engine (concatenated_path parent r.path) in
      record {
        reg_exp = parametric.reg_exp;
        path = parametric.path;
        methods = (r.method, factorize_method r middlewares parent) ∷ [];
      }

  -- one round of the loop, for a route that is no group
  unfoldable pub add_route :
      RouteEffect E M → List M → Text → Routing engine E M → Factorized (Routing engine E M)
  unfolding can_override_route factorize_method factorize_item replace_double_slashes
  add_route r middlewares parent routing =
      let parametric = factorize_reg_exp_with_params engine (concatenated_path parent r.path) in
      let method = factorize_method r middlewares parent in
      let s = source parametric.reg_exp in
      elim (find (has_source s) routing) [
        | some found ↦
            if not (can_override_route r) && is_some (lookup r.method found.methods)
            then redefinition r.method (replace_double_slashes (parent ++ r.path))
            else if can_override_route r && is_some (lookup r.method found.methods)
            then factorized routing
            else factorized (set_method s r.method method routing)
        | none ↦ factorized (routing ++ factorize_item r middlewares parent ∷ [])
      ]

  -- the loop of `factorizeRouting`, on the routing built so far; a group is factorized on its own
  unfoldable pub factorize_from :
      Routes E M → List M → Text → Routing engine E M → Factorized (Routing engine E M)
  factorize_from nil middlewares parent routing = factorized routing
  factorize_from (route r rest) middlewares parent routing =
      add_route r middlewares parent routing >>= factorize_from rest middlewares parent
  factorize_from (group path ms effects rest) middlewares parent routing =
      factorize_from effects (middlewares ++ ms) (concatenated_path parent path) [] >>= λ inner.
      factorize_from rest middlewares parent (routing ++ inner)

  unfoldable pub factorize_routing : Routes E M → List M → Text → Factorized (Routing engine E M)
  unfolding factorize_from
  factorize_routing routes middlewares parent = factorize_from routes middlewares parent []

  unfoldable pub factorize_routing_with_defaults :
      E → Routes E M → List M → Factorized (Routing engine E M)
  unfolding factorize_routing not_found
  factorize_routing_with_defaults not_found_effect routes middlewares =
      factorize_routing (append_routes routes (route (not_found not_found_effect) nil)) middlewares
        []
