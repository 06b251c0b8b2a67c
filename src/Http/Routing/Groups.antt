-- ===== src/Http/Routing/Groups.antt =====
-- Groups with an empty path (http.router.factory.ts and http.router.params.factory.ts).
use marble_js.Base.{
  ◌≡◌, refl, false, List, [], ◌∷◌, ◌++◌, Text, codes, lookup, append_assoc, append-nil, arith,
  ==_refl, ap, sym,
}
use mathlib.Core.Path.{◌≡⟨◌⟩◌, ◌∎}
use marble_js.Http.Path.{PathToRegexp, prepare_path, factorize_reg_exp_with_params}
use marble_js.Http.Path.Slashes.{prepare_path-double_slash}
use marble_js.Http.Routing.Model.{RouteEffect, nil, route, group, RoutingItem}
use marble_js.Http.Routing.Factory.{
  factorized, redefinition, factorize_item, add_route, factorize_from, factorize_routing,
  concatenated_path, replace_double_slashes, can_override_route,
}
use marble_js.Http.Routing.Precedence.{route_source}

concatenated_path-empty :
    (p s : Text) → concatenated_path (concatenated_path p []) s ≡ p ++ b'/' ∷ b'/' ∷ s
concatenated_path-empty p s = simp (append_assoc, append-nil)

module _ (engine : PathToRegexp) {E M : Type 0} where
  -- A group with an empty path does not change the regular expression of its routes.
  factorize_item-empty_group :
      (r : RouteEffect E M) (ms gs : List M) (p : Text)
      → RoutingItem.reg_exp (factorize_item engine r (ms ++ gs) (concatenated_path p []))
        ≡ RoutingItem.reg_exp (factorize_item engine r ms p)
  unfolding factorize_item factorize_reg_exp_with_params
  factorize_item-empty_group r ms gs p =
      ap (λ path. engine.compile path)
        (prepare_path (concatenated_path (concatenated_path p []) r.path)
          ≡⟨ ap prepare_path (concatenated_path-empty p r.path) ⟩
            prepare_path (p ++ b'/' ∷ b'/' ∷ r.path)
          ≡⟨ prepare_path-double_slash p r.path ⟩ prepare_path (p ++ b'/' ∷ r.path)
          ≡⟨ ap prepare_path (sym (append_assoc p (codes "/") r.path)) ⟩
            prepare_path (concatenated_path p r.path) ∎)

  -- A route that is declared twice is refused, but not when the second declaration stands in a
  -- group of the same path: then the routing holds two items with one regular expression.
  factorize_routing-group_twice :
      (r : RouteEffect E M) (ms gs : List M) (p : Text)
      → can_override_route r ≡ false
      → let first = factorize_item engine r ms p in
        let second = factorize_item engine r (ms ++ gs) (concatenated_path p []) in
        (factorize_routing engine (route r (route r nil)) ms p
          ≡ redefinition r.method (replace_double_slashes (p ++ r.path)))
        × (factorize_routing engine (route r (group [] gs (route r nil) nil)) ms p
            ≡ factorized (first ∷ second ∷ []))
        × (second.reg_exp ≡ first.reg_exp)
  unfolding factorize_routing factorize_from add_route lookup
  factorize_routing-group_twice r ms gs p fixed = (
    ground (arith, ==_refl (route_source engine r p), ==_refl r.method),
    refl,
    factorize_item-empty_group r ms gs p,
  )
