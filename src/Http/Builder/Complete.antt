-- ===== src/Http/Builder/Complete.antt =====
-- What the phases of packages/http/src/router/http.router.ixbuilder.ts promise of a route.
use marble_js.Base.{
  ◌≡◌, refl, ◌∙◌, ap, sym, Option, none, some, Bool, true, false, List, [], ◌∷◌, ◌++◌, is_some,
}
use marble_js.Core.Effects.{Effect, apply_effect, combine_middlewares, combine_middlewares-append}
use marble_js.Http.Builder.{
  Phase, empty, path_applied, type_applied, middleware_applied, effect_applied, meta_applied,
  RouteSpec, BuilderStep, match_path, match_path_again, match_type, apply_first, apply_next,
  use_effect, use_effect_after, apply_meta, apply_meta_again, Pipeline, route, then,
  with_middleware, apply_step, run_pipeline,
}

-- What is set at a phase.
abbrev pub has_path : Phase → Bool
has_path empty = false
has_path path_applied = true
has_path type_applied = true
has_path middleware_applied = true
has_path effect_applied = true
has_path meta_applied = true

abbrev pub has_method : Phase → Bool
has_method empty = false
has_method path_applied = false
has_method type_applied = true
has_method middleware_applied = true
has_method effect_applied = true
has_method meta_applied = true

abbrev pub has_effect : Phase → Bool
has_effect empty = false
has_effect path_applied = false
has_effect type_applied = false
has_effect middleware_applied = false
has_effect effect_applied = true
has_effect meta_applied = true

abbrev pub Promised : Bool → Bool → Type 0
Promised false set = Unit
Promised true set = set ≡ true

with_middleware_lem :
    {S C : Type 0} (before : Option (Effect S S C)) (middleware : Effect S S C) (input : S)
    (ctx : C)
    → with_middleware before middleware input ctx ≡ middleware (apply_effect ctx input before) ctx
unfolding with_middleware combine_middlewares
with_middleware_lem none middleware input ctx = refl
with_middleware_lem (some before) middleware input ctx = refl

module _ {E S C V : Type 0} where
  unfoldable pub IsAt : Phase → RouteSpec E S C V → Type 0
  IsAt p spec =
      Promised (has_path p) (is_some spec.path)
      × Promised (has_method p) (is_some spec.method)
      × Promised (has_effect p) (is_some spec.effect)

  -- The middleware of a step, if it has one.
  abbrev pub middleware_of : {p q : Phase} → BuilderStep E S C V p q → List (Option (Effect S S C))
  middleware_of (match_path path) = []
  middleware_of (match_path_again path) = []
  middleware_of (match_type method) = []
  middleware_of (apply_first middleware) = some middleware ∷ []
  middleware_of (apply_next middleware) = some middleware ∷ []
  middleware_of (use_effect effect) = []
  middleware_of (use_effect_after effect) = []
  middleware_of (apply_meta meta) = []
  middleware_of (apply_meta_again meta) = []

  unfoldable pub middlewares_of : {p : Phase} → Pipeline E S C V p → List (Option (Effect S S C))
  middlewares_of route = []
  middlewares_of (then pipeline next) = middlewares_of pipeline ++ middleware_of next

  apply_step-middleware :
      {p q : Phase} (next : BuilderStep E S C V p q) (spec : RouteSpec E S C V) (input : S)
      (ctx : C)
      → apply_effect ctx input (apply_step next spec).middleware
        ≡ combine_middlewares (middleware_of next) (apply_effect ctx input spec.middleware) ctx
  unfolding apply_step combine_middlewares
  apply_step-middleware (match_path path) spec input ctx = refl
  apply_step-middleware (match_path_again path) spec input ctx = refl
  apply_step-middleware (match_type method) spec input ctx = refl
  apply_step-middleware (apply_first middleware) spec input ctx =
      with_middleware_lem spec.middleware middleware input ctx
  apply_step-middleware (apply_next middleware) spec input ctx =
      with_middleware_lem spec.middleware middleware input ctx
  apply_step-middleware (use_effect effect) spec input ctx = refl
  apply_step-middleware (use_effect_after effect) spec input ctx = refl
  apply_step-middleware (apply_meta meta) spec input ctx = refl
  apply_step-middleware (apply_meta_again meta) spec input ctx = refl

  -- The middleware of a built route is the combination of all the middlewares of its pipeline, in
  -- their order, those before a second path included.
  pub run_pipeline-combine_middlewares :
      {p : Phase} (pipeline : Pipeline E S C V p) (input : S) (ctx : C)
      → apply_effect ctx input (run_pipeline pipeline).middleware
        ≡ combine_middlewares (middlewares_of pipeline) input ctx
  unfolding run_pipeline middlewares_of combine_middlewares
  run_pipeline-combine_middlewares route input ctx = refl
  run_pipeline-combine_middlewares (then pipeline next) input ctx =
      apply_step-middleware next (run_pipeline pipeline) input ctx
      ∙ ap (λ i. combine_middlewares (middleware_of next) i ctx)
          (run_pipeline-combine_middlewares pipeline input ctx)
      ∙ sym (combine_middlewares-append (middlewares_of pipeline) (middleware_of next) input ctx)
