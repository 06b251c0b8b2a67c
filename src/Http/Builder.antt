-- ===== src/Http/Builder.antt =====
-- packages/http/src/router/http.router.ixbuilder.ts and
-- packages/core/src/+internal/fp/IxBuilder.ts: the builder of a route, whose phases are the indices
-- of its steps, so that only the pipelines that the source's types admit are terms.
pub mod Complete
mod Tests
use marble_js.Base.{
  Option, none, some, Bool, true, false, List, [], ◌∷◌, Text, Dict, assign, or_else,
}
use marble_js.Core.Effects.{Effect, combine_middlewares}

-- The phases of a builder; a pipeline starts at `empty`.
pub data Phase : Type 0 where
  empty path_applied type_applied middleware_applied effect_applied meta_applied : Phase

-- `RouteEffectSpec`, over effects E, streams S, contexts C and the values V of metadata
pub record RouteSpec (E S C V : Type 0) : Type 0 where
  pub path : Option Text
  pub method : Option Text
  pub effect : Option E
  pub middleware : Option (Effect S S C)
  pub meta : Option (Dict V)

-- `matchPath`, `matchType`, `use`, `useEffect` and `applyMeta` at the phases that they take
pub data BuilderStep (E S C V : Type 0) : Phase → Phase → Type 0 where
  match_path : Text → BuilderStep E S C V empty path_applied
  match_path_again : Text → BuilderStep E S C V meta_applied path_applied
  match_type : Text → BuilderStep E S C V path_applied type_applied
  apply_first : Effect S S C → BuilderStep E S C V type_applied middleware_applied
  apply_next : Effect S S C → BuilderStep E S C V middleware_applied middleware_applied
  use_effect : E → BuilderStep E S C V type_applied effect_applied
  use_effect_after : E → BuilderStep E S C V middleware_applied effect_applied
  apply_meta : Dict V → BuilderStep E S C V effect_applied meta_applied
  apply_meta_again : Dict V → BuilderStep E S C V meta_applied meta_applied

-- `r.pipe` up to a phase
pub data Pipeline (E S C V : Type 0) : Phase → Type 0 where
  route : Pipeline E S C V empty
  then : {p : Phase} {q : Phase} → Pipeline E S C V p → BuilderStep E S C V p q → Pipeline E S C V q

-- `spec.middleware ? combineMiddlewares(spec.middleware, middleware) : middleware`
unfoldable pub with_middleware :
    {S C : Type 0} → Option (Effect S S C) → Effect S S C → Effect S S C
unfolding combine_middlewares
with_middleware none middleware = middleware
with_middleware (some before) middleware = combine_middlewares (some before ∷ some middleware ∷ [])

module _ {E S C V : Type 0} where
  abbrev pub empty_spec : RouteSpec E S C V
  empty_spec = record { path = none; method = none; effect = none; middleware = none; meta = none }

  unfoldable pub apply_step :
      {p q : Phase} → BuilderStep E S C V p q → RouteSpec E S C V → RouteSpec E S C V
  unfolding with_middleware
  apply_step (match_path path) spec = record spec { path = some path }
  apply_step (match_path_again path) spec = record spec { path = some path }
  apply_step (match_type method) spec = record spec { method = some method }
  apply_step (apply_first middleware) spec = record spec {
    middleware = some (with_middleware spec.middleware middleware);
  }
  apply_step (apply_next middleware) spec = record spec {
    middleware = some (with_middleware spec.middleware middleware);
  }
  apply_step (use_effect effect) spec = record spec { effect = some effect }
  apply_step (use_effect_after effect) spec = record spec { effect = some effect }
  apply_step (apply_meta meta) spec = record spec {
    meta = some (assign (or_else spec.meta []) meta);
  }
  apply_step (apply_meta_again meta) spec = record spec {
    meta = some (assign (or_else spec.meta []) meta);
  }

  -- the functions of `pipe` on `route`, and `run`
  unfoldable pub run_pipeline : {p : Phase} → Pipeline E S C V p → RouteSpec E S C V
  unfolding apply_step
  run_pipeline route = empty_spec
  run_pipeline (then pipeline next) = apply_step next (run_pipeline pipeline)
