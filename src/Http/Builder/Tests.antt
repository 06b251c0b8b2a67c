-- ===== src/Http/Builder/Tests.antt =====
-- A route that is built by packages/http/src/router/http.router.ixbuilder.ts.
use marble_js.Base.{ℕ, ◌+◌, ◌*◌, ◌≡◌, [], ◌∷◌, codes}
use marble_js.Core.Effects.{apply_effect, combine_middlewares}
use marble_js.Http.Builder.{
  Pipeline, effect_applied, middleware_applied, meta_applied, route, then, match_path, match_type,
  apply_first, apply_next, use_effect_after, apply_meta, run_pipeline,
}
use marble_js.Http.Builder.Complete.{run_pipeline-combine_middlewares, middlewares_of}

abbrev guarded : Pipeline ℕ ℕ ℕ ℕ middleware_applied
guarded =
    then
      (then (then (then route (match_path (codes "/a"))) (match_type (codes "GET")))
        (apply_first (λ i ctx. i + ctx)))
      (apply_next (λ i ctx. i * ctx))

abbrev built : Pipeline ℕ ℕ ℕ ℕ effect_applied
built = then guarded (use_effect_after 7)

abbrev described : Pipeline ℕ ℕ ℕ ℕ meta_applied
described = then built (apply_meta ((codes "name", 1) ∷ []))

run_pipeline-combine_middlewares_example :
    apply_effect 5 2 (run_pipeline guarded).middleware
    ≡ combine_middlewares (middlewares_of guarded) 2 5
run_pipeline-combine_middlewares_example = run_pipeline-combine_middlewares guarded 2 5
