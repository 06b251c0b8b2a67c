-- ===== src/Http/Routing/Model.antt =====
-- http.router.interface.ts and http.router.combiner.ts.
use marble_js.Base.{Option, Bool, List, [], Text, Dict, or_else}
use marble_js.Http.Path.{PathToRegexp}

-- `RouteMeta`; the fields that a user adds are left out, since nothing reads them.
pub record RouteMeta : Type 0 where
  pub name : Option Text
  pub continuous : Option Bool
  pub overridable : Option Bool

module _ (Effect Middleware : Type 0) where
  pub record RouteEffect : Type 0 where
    pub path : Text
    pub method : Text
    pub effect : Effect
    pub middleware : Option Middleware
    pub meta : Option RouteMeta

  -- `(RouteEffect | RouteEffectGroup)[]`: a list whose elements are of two kinds. A group has its
  -- path, its middlewares and its own such list.
  pub data Routes : Type 0 where
    nil : Routes
    route : RouteEffect → Routes → Routes
    group : Text → List Middleware → Routes → Routes → Routes

  pub record RoutingMethod : Type 0 where
    pub parameters : Option (List Text)
    pub middlewares : List Middleware
    pub effect : Effect
    pub meta : Option RouteMeta

  pub record RoutingItem (engine : PathToRegexp) : Type 0 where
    pub reg_exp : engine.RegExp
    pub path : Text
    pub methods : Dict RoutingMethod

-- `RouteCombinerConfig | (RouteEffect | RouteEffectGroup)[]`
pub data CombinerInput (E M : Type 0) : Type 0 where
  config : Option (List M) → Routes E M → CombinerInput E M
  effects : Routes E M → CombinerInput E M

-- `combineRoutes`, put in front of the routes that follow
unfoldable pub combine_routes : {E M : Type 0} → Text → CombinerInput E M → Routes E M → Routes E M
combine_routes path (config middlewares rs) rest = group path (or_else middlewares []) rs rest
combine_routes path (effects rs) rest = group path [] rs rest

unfoldable pub append_routes : {E M : Type 0} → Routes E M → Routes E M → Routes E M
append_routes nil more = more
append_routes (route r rest) more = route r (append_routes rest more)
append_routes (group path ms rs rest) more = group path ms rs (append_routes rest more)
