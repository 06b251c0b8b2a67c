-- ===== src/Http/Matcher.antt =====
-- packages/http/src/router/http.router.matcher.ts, on the routing that the resolver bootstraps.
-- `decodeURIComponent` and the regular expressions are parameters.
pub mod First
pub mod Params
use marble_js.Base.{
  ℕ, Option, none, some, Bool, true, false, List, [], ◌∷◌, Text, codes, Dict, lookup, insert,
  or_option,
}
use marble_js.Http.Path.{PathToRegexp}
use marble_js.Http.Routing.Model.{RoutingMethod}

-- `decodeURIComponent`: the decoded text, or the message of the `URIError` that it throws.
pub data Decoded : Type 0 where
  decoded : Text → Decoded
  malformed : Text → Decoded

-- The entry of a method: its parameters, and its subject. The subject stands for the definition
-- whose middlewares and effect are subscribed to it.
pub record BootstrappedMethod (E M : Type 0) : Type 0 where
  pub subject : RoutingMethod E M
  pub parameters : Option (List Text)

pub record BootstrappedRoutingItem (E M : Type 0) (engine : PathToRegexp) : Type 0 where
  pub reg_exp : engine.RegExp
  pub path : Text
  pub methods : Dict (BootstrappedMethod E M)

pub record RouteMatched (E M : Type 0) : Type 0 where
  pub subject : RoutingMethod E M
  pub params : Dict Text
  pub path : Text

-- What `find(urlPath, request.method)` does: it returns `undefined`, throws, or returns a match.
pub data Found (E M : Type 0) : Type 0 where
  not_matched : Found E M
  uri_error : Text → Found E M
  matched : RouteMatched E M → Found E M

pub data Bound : Type 0 where
  bound : Dict Text → Bound
  unbound : Text → Bound

-- `match[p + 1]` as the text that `decodeURIComponent` makes of it: `undefined` becomes a text.
abbrev pub capture_text : List (Option Text) → Text
capture_text [] = codes "undefined"
capture_text (none ∷ _) = codes "undefined"
capture_text (some c ∷ _) = c

abbrev pub next_captures : List (Option Text) → List (Option Text)
next_captures [] = []
next_captures (_ ∷ cs) = cs

-- `methods[method] || methods['*']`
unfoldable pub matched_method :
    {E M : Type 0} → Text → Dict (BootstrappedMethod E M) → Option (BootstrappedMethod E M)
matched_method method methods = or_option (lookup method methods) (lookup (codes "*") methods)

abbrev pub found_in : {E M : Type 0} → BootstrappedMethod E M → Text → Bound → Found E M
found_in m path (unbound message) = uri_error message
found_in m path (bound params) =
    matched (record { subject = m.subject; params = params; path = path })

module _ (decode : Text → Decoded) where
  -- the loop over `matchedMethod.parameters`
  unfoldable pub bind_params : List Text → List (Option Text) → Dict Text → Bound
  bind_params [] captures params = bound params
  bind_params (p ∷ ps) captures params = elim (decode (capture_text captures)) [
    | malformed message ↦ unbound message
    | decoded v ↦ bind_params ps (next_captures captures) (insert p v params)
  ]

  -- `if (matchedMethod.parameters) { … }`
  abbrev pub bind_parameters : Option (List Text) → List (Option Text) → Bound
  bind_parameters none captures = bound []
  bind_parameters (some ps) captures = bind_params ps captures []

  module _ (engine : PathToRegexp) {E M : Type 0} where
    -- the loop of `matchRoute`
    unfoldable pub match_route : List (BootstrappedRoutingItem E M engine) → Text → Text → Found E M
    match_route [] url method = not_matched
    match_route (item ∷ items) url method =
        let continue = match_route items url method in
        elim (engine.exec item.reg_exp url) [
          | none ↦ continue
          | some captures ↦ elim (matched_method method item.methods) [
            | none ↦ continue
            | some m ↦ found_in m item.path (bind_parameters m.parameters captures)
          ]
        ]
