-- ===== src/Core/Effects.antt =====
-- packages/core/src/effects/effects.combiner.ts, over streams and contexts of any kind; `merge` and
-- `share` are those of rxjs.
use marble_js.Base.{◌≡◌, refl, Option, none, some, List, [], ◌∷◌, ◌++◌, foldl, map}

-- An effect: a function of a stream and a context.
abbrev pub Effect : Type 0 → Type 0 → Type 0 → Type 0
Effect S T C = S → C → T

module _ {S C : Type 0} where
  abbrev pub apply_effect : C → S → Option (Effect S S C) → S
  apply_effect ctx input none = input
  apply_effect ctx input (some effect) = effect input ctx

  -- `combineMiddlewares`
  unfoldable pub combine_middlewares : List (Option (Effect S S C)) → Effect S S C
  combine_middlewares effects input ctx = foldl (apply_effect ctx) input effects

  pub combine_middlewares-append :
      (es fs : List (Option (Effect S S C))) (input : S) (ctx : C)
      → combine_middlewares (es ++ fs) input ctx
        ≡ combine_middlewares fs (combine_middlewares es input ctx) ctx
  unfolding combine_middlewares
  combine_middlewares-append [] fs input ctx = refl
  combine_middlewares-append (e ∷ es) fs input ctx =
      combine_middlewares-append es fs (apply_effect ctx input e) ctx

-- `combineEffects`
unfoldable pub combine_effects :
    {S T C : Type 0} → (List T → T) → (T → T) → List (Effect S T C) → Effect S T C
combine_effects merge share effects input ctx =
    share (merge (map (λ effect. effect input ctx) effects))
