-- ===== src/Http/Tests.antt =====
-- The router of packages/http/src/router on concrete routes, with a small engine in place of
-- path-to-regexp: the default path matches everything and `/user/:id` binds its parameter.
use Prim.Native.String.{String}
use marble_js.Base.{
  ℕ, ◌≡◌, refl, ◌≢◌, ◌↔◌, Option, none, some, true, false, List, [], ◌∷◌, ◌++◌, map, Text, codes,
  ◌==◌, starts_with, if◌then◌else◌, lookup, insert, All, drop, ap,
}
use marble_js.Http.Path.{
  PathToRegexp, KeyName, named, prepare_path, factorize_reg_exp_with_params, reg_exp_parameters,
}
use marble_js.Http.Routing.Model.{RouteEffect, Routes, nil, route, group, append_routes}
use marble_js.Http.Routing.Factory.{
  factorized, redefinition, Routing, can_override_route, set_method, factorize_method,
  factorize_item, add_route, factorize_from, factorize_routing, not_found,
  factorize_routing_with_defaults,
}
use marble_js.Http.Routing.Precedence.{
  lookup_method, route_source, add_route-eq-redefinition_iff, factorize_from-lookup_method,
}
use marble_js.Http.Routing.Declared.{here, later, inside, serves, factorize_from-serves}
use marble_js.Http.Routing.Provenance.{
  AllEntries, IsDeclared, factorize_routing-IsDeclared, Inherits, factorize_routing-middlewares,
}
use marble_js.Http.Matcher.{
  Decoded, decoded, malformed, bound, bind_params, match_route, not_matched, matched_method,
  BootstrappedRoutingItem,
}
use marble_js.Http.Matcher.First.{
  IsPassed, IsChosen, match_route-eq-not_matched_iff, match_route-IsChosen,
}
use marble_js.Http.Resolver.{
  Parsed, parsed, RoutedRequest, route_subject, request_bus, error_subject, route_not_found_error,
  bootstrap_item, resolve, split_url,
}
use marble_js.Http.Resolver.Reachable.{Answers, resolve-Answers}
use marble_js.Http.Resolver.Total.{resolve-ne-not_found}

abbrev exec_sample : Text → Text → Option (List (Option Text))
exec_sample g url =
    if g == codes "/(.*)"
    then some (some url ∷ [])
    else if g == codes "/user/:id"
    then (if starts_with url (codes "/user/") then some (some (drop 6 url) ∷ []) else none)
    else if g == url
    then some []
    else none

abbrev keys_sample : Text → List KeyName
keys_sample g = if g == codes "/user/:id" then named (codes "id") ∷ [] else []

abbrev engine : PathToRegexp
engine = record {
  RegExp = Text;
  compile = λ s. s;
  keys = keys_sample;
  source = λ s. s;
  exec = exec_sample;
}

abbrev plain : String → String → ℕ → RouteEffect ℕ ℕ
plain path method effect = record {
  path = codes path;
  method = codes method;
  effect = effect;
  middleware = none;
  meta = none;
}

-- GET /user/:id, and a group /api with middleware 7 that holds POST /user.
abbrev routes : Routes ℕ ℕ
routes =
    route (plain "/user/:id" "GET" 1)
      (group (codes "/api") (7 ∷ []) (route (plain "/user" "POST" 2) nil) nil)

abbrev user_item : Routing engine ℕ ℕ
user_item = factorize_item engine (plain "/user/:id" "GET" 1) (5 ∷ []) [] ∷ []

http : Unit {0}
unfolding factorize_routing_with_defaults factorize_routing factorize_from add_route factorize_item
    factorize_reg_exp_with_params reg_exp_parameters not_found set_method can_override_route
    factorize_method prepare_path append_routes lookup insert ◌==◌ starts_with
http = tt

abbrev built : Routing engine ℕ ℕ
built =
    factorize_item engine (plain "/user/:id" "GET" 1) (5 ∷ []) []
    ∷ factorize_item engine (plain "/user" "POST" 2) (5 ∷ 7 ∷ []) (codes "//api")
    ∷ []

routes-built : factorize_routing engine routes (5 ∷ []) [] ≡ factorized built
unfolding http
routes-built = refl

abbrev put_user : RouteEffect ℕ ℕ
put_user = plain "/user/:id" "PUT" 3

abbrev two_methods : Routing engine ℕ ℕ
two_methods =
    set_method engine (codes "/user/:id") (codes "PUT") (factorize_method engine put_user [] [])
      user_item

put_added : add_route engine put_user [] [] user_item ≡ factorized two_methods
unfolding http
put_added = refl

add_route-eq-redefinition_iff_example :
    ((name : Text) × (path : Text) × (add_route engine (plain "/user/:id" "GET" 9) [] [] user_item
        ≡ redefinition name path))
    ↔ ((can_override_route (plain "/user/:id" "GET" 9) ≡ false)
        × (lookup_method engine
              (route_source engine (plain "/user/:id" "GET" 9) [])
              (codes "GET")
              user_item
            ≢ none))
add_route-eq-redefinition_iff_example =
    add_route-eq-redefinition_iff engine (plain "/user/:id" "GET" 9) [] [] user_item

more_built : factorize_from engine (route put_user nil) [] [] user_item ≡ factorized two_methods
unfolding http
more_built = refl

get_found :
    lookup_method engine (codes "/user/:id") (codes "GET") user_item
    ≡ some (factorize_method engine (plain "/user/:id" "GET" 1) (5 ∷ []) [])
unfolding http
get_found = refl

factorize_from-lookup_method_example :
    lookup_method engine (codes "/user/:id") (codes "GET") two_methods
    ≡ some (factorize_method engine (plain "/user/:id" "GET" 1) (5 ∷ []) [])
factorize_from-lookup_method_example =
    factorize_from-lookup_method engine (route put_user nil) [] [] (codes "/user/:id") (codes "GET")
      user_item two_methods (factorize_method engine (plain "/user/:id" "GET" 1) (5 ∷ []) [])
      more_built get_found

routes-built_from : factorize_from engine routes (5 ∷ []) [] [] ≡ factorized built
unfolding http
routes-built_from = refl

factorize_from-serves_example :
    serves engine
      (route_source engine (plain "/user" "POST" 2) (codes "//api"))
      (codes "POST")
      built
    ≡ true
factorize_from-serves_example =
    factorize_from-serves engine [] built (later (inside here)) routes-built_from

factorize_routing-IsDeclared_example :
    AllEntries engine (IsDeclared engine routes (5 ∷ []) []) built
factorize_routing-IsDeclared_example =
    factorize_routing-IsDeclared engine routes (5 ∷ []) [] built routes-built

factorize_routing-middlewares_example : AllEntries engine (Inherits engine (5 ∷ [])) built
factorize_routing-middlewares_example =
    factorize_routing-middlewares engine routes (5 ∷ []) [] built routes-built

-- A stand-in for `decodeURIComponent`: no escapes, and a lone per cent sign is malformed.
abbrev decode : Text → Decoded
decode s = if s == codes "%" then malformed (codes "URI malformed") else decoded s

abbrev bootstrapped : List (BootstrappedRoutingItem ℕ ℕ engine)
bootstrapped = map bootstrap_item built

match_route-eq-not_matched_iff_example :
    (match_route decode engine bootstrapped (codes "/none") (codes "GET") ≡ not_matched)
    ↔ All (IsPassed engine (codes "/none") (codes "GET")) bootstrapped
match_route-eq-not_matched_iff_example =
    match_route-eq-not_matched_iff decode engine bootstrapped (codes "/none") (codes "GET")

user_matches : match_route decode engine bootstrapped (codes "/user/4") (codes "GET") ≢ not_matched
unfolding http match_route bootstrap_item matched_method bind_params
user_matches h = cc

match_route-IsChosen_example :
    IsChosen decode engine bootstrapped
      (codes "/user/4")
      (codes "GET")
      (match_route decode engine bootstrapped (codes "/user/4") (codes "GET"))
match_route-IsChosen_example =
    match_route-IsChosen decode engine bootstrapped (codes "/user/4") (codes "GET") user_matches

two_params :
    bind_params decode (codes "a" ∷ codes "b" ∷ []) (some (codes "1") ∷ some (codes "2") ∷ []) []
    ≡ bound ((codes "a", codes "1") ∷ (codes "b", codes "2") ∷ [])
unfolding bind_params insert ◌==◌
two_params = refl

decode_two : decode (codes "2") ≡ decoded (codes "2")
unfolding ◌==◌
decode_two = refl

decode_undefined : decode (codes "undefined") ≡ decoded (codes "undefined")
unfolding ◌==◌
decode_undefined = refl

-- A stand-in for `qs.parse`
abbrev parse_query : Text → Parsed Text
parse_query s = parsed s

abbrev url : Text
url = codes "/user/4?x=1?y=2"

abbrev answer : RoutedRequest Text
answer = record {
  url = url;
  method = codes "GET";
  query = codes "x=1";
  params = (codes "id", codes "4") ∷ [];
  meta_path = codes "/user/:id";
}

url_resolved :
    resolve parse_query [] decode engine built url (codes "GET")
    ≡ route_subject (factorize_method engine (plain "/user/:id" "GET" 1) (5 ∷ []) []) answer
      ∷ request_bus answer
      ∷ []
unfolding resolve http match_route bootstrap_item matched_method bind_params split_url
url_resolved = refl

resolve-Answers_example :
    Answers engine routes
      (5 ∷ [])
      url
      (codes "GET")
      (factorize_method engine (plain "/user/:id" "GET" 1) (5 ∷ []) [])
resolve-Answers_example =
    resolve-Answers parse_query [] decode engine routes (5 ∷ []) built url (codes "GET")
      (factorize_method engine (plain "/user/:id" "GET" 1) (5 ∷ []) []) answer
      (request_bus answer ∷ []) routes-built url_resolved

abbrev with_default : Routing engine ℕ ℕ
with_default = built ++ factorize_item engine (not_found 0) (5 ∷ []) [] ∷ []

with_default_built :
    factorize_routing_with_defaults engine 0 routes (5 ∷ []) ≡ factorized with_default
unfolding http
with_default_built = refl

default_catches : engine.exec (engine.compile (codes "/(.*)")) (split_url (codes "/none")).0 ≢ none
unfolding split_url ◌==◌
default_catches h = cc

resolve-ne-not_found_example :
    resolve parse_query [] decode engine with_default (codes "/none") (codes "GET")
    ≢ error_subject route_not_found_error ∷ []
resolve-ne-not_found_example =
    resolve-ne-not_found engine parse_query [] decode 0 routes (5 ∷ []) with_default (codes "/none")
      (codes "GET") (λ g h s e. ap (λ x. engine.exec x s) e) default_catches with_default_built
