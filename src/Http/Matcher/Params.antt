-- ===== src/Http/Matcher/Params.antt =====
-- The path parameters of a match (http.router.matcher.ts).
use marble_js.Base.{
  ℕ, zero, suc, ◌≡◌, refl, ◌∙◌, ◌≢◌, Option, none, some, List, [], ◌∷◌, Text, codes, Dict, lookup,
  insert, lookup-insert, ==_iff, get_elem?, All, arith, ==_refl,
}
use marble_js.Http.Path.{named, unnamed, reg_exp_parameters}
use marble_js.Http.Matcher.{
  Decoded, decoded, malformed, bind_params, bound, capture_text, next_captures,
}

-- No parameter name stands twice.
abbrev pub HasDistinct : List Text → Type 0
HasDistinct [] = Unit
HasDistinct (p ∷ ps) = All (λ q. p ≢ q) ps × HasDistinct ps

module _ (decode : Text → Decoded) where
  -- Inversion of one round that goes through.
  bind_params-cons :
      (p : Text) (ps : List Text) (cs : List (Option Text)) (acc d : Dict Text)
      → bind_params decode (p ∷ ps) cs acc ≡ bound d
      → (v : Text) × (decode (capture_text cs) ≡ decoded v)
        × (bind_params decode ps (next_captures cs) (insert p v acc) ≡ bound d)
  unfolding bind_params
  bind_params-cons p ps cs acc d h = go (decode (capture_text cs)) refl
    where
      go :
          (r : Decoded)
          → decode (capture_text cs) ≡ r
          → (v : Text) × (decode (capture_text cs) ≡ decoded v)
            × (bind_params decode ps (next_captures cs) (insert p v acc) ≡ bound d)
      go (decoded v) e = (v, e, ground arith)
      go (malformed m) e = absurd (ground arith)

  bind_params-other :
      (ps : List Text) (cs : List (Option Text)) (acc d : Dict Text) (k : Text)
      → All (λ q. k ≢ q) ps
      → bind_params decode ps cs acc ≡ bound d
      → lookup k d ≡ lookup k acc
  unfolding bind_params
  bind_params-other [] cs acc d k fresh h = ground arith
  bind_params-other (p ∷ ps) cs acc d k fresh h =
      let (v, _, rest) = bind_params-cons p ps cs acc d h in
      bind_params-other ps (next_captures cs) (insert p v acc) d k fresh.1 rest
      ∙ ground (arith, lookup-insert p k v acc, ==_iff p k)

  -- With distinct names, each parameter has the decoded text of the capture at its own position.
  bind_params-lookup :
      (ps : List Text) (cs : List (Option Text)) (acc d : Dict Text) (i : ℕ) (k c v : Text)
      → HasDistinct ps
      → bind_params decode ps cs acc ≡ bound d
      → get_elem? ps i ≡ some k
      → get_elem? cs i ≡ some (some c)
      → decode c ≡ decoded v
      → lookup k d ≡ some v
  bind_params-lookup [] cs acc d i k c v u h ep ec ev = cc
  bind_params-lookup (p ∷ ps) [] acc d i k c v u h ep ec ev = cc
  bind_params-lookup (p ∷ ps) (x ∷ cs) acc d zero k c v u h ep ec ev =
      let (w, dw, rest) = bind_params-cons p ps (x ∷ cs) acc d h in
      let first = bind_params-other ps cs (insert p w acc) d p u.0 rest in
      ground (arith, first, lookup-insert p p w acc, ==_refl p)
  bind_params-lookup (p ∷ ps) (x ∷ cs) acc d (suc i) k c v u h ep ec ev =
      let (w, dw, rest) = bind_params-cons p ps (x ∷ cs) acc d h in
      bind_params-lookup ps cs (insert p w acc) d i k c v u.1 rest ep ec ev

  -- An optional group that takes no part in the match binds its parameter to the decoded text
  -- "undefined", not to nothing.
  bind_params-undefined :
      (k v : Text)
      → decode (codes "undefined") ≡ decoded v
      → bind_params decode (k ∷ []) (none ∷ []) [] ≡ bound ((k, v) ∷ [])
  unfolding bind_params insert
  bind_params-undefined k v h = ground arith

  -- A named parameter behind a wildcard is bound to what the wildcard matched: the wildcard's key is
  -- filtered out of the names, and its capture stays.
  bind_params-wildcard :
      (k w c v : Text)
      → decode w ≡ decoded v
      → bind_params decode (reg_exp_parameters (unnamed 0 ∷ named k ∷ [])) (some w ∷ some c ∷ []) []
        ≡ bound ((k, v) ∷ [])
  unfolding bind_params insert reg_exp_parameters
  bind_params-wildcard k w c v h = ground arith
