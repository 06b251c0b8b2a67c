-- ===== src/Http/Path.antt =====
-- packages/http/src/router/http.router.params.factory.ts: the path of a route is prepared by three
-- replacements and compiled by the package path-to-regexp, which is a parameter.
pub mod Shape
pub mod Slashes
use marble_js.Base.{
  ℕ, List, [], ◌∷◌, ◌++◌, map, Option, none, some, Bool, true, false, ◌&&◌, Text, codes, show, eqb,
  keep, if◌then◌else◌,
}

-- The `name` of a path-to-regexp `Key`: a text, or the number of an unnamed group.
pub data KeyName : Type 0 where
  named : Text → KeyName
  unnamed : ℕ → KeyName

-- What the router uses of path-to-regexp and of the regular expressions that it builds. `exec` is
-- `url.match(regExp)` without the whole match: the capture groups, some of which may be `undefined`.
pub record PathToRegexp : Type 1 where
  pub RegExp : Type 0
  pub compile : Text → RegExp
  pub keys : Text → List KeyName
  pub source : RegExp → Text
  pub exec : RegExp → Text → Option (List (Option Text))

-- `.replace(/\/\*/g, '/(.*)')`
pub expand_wildcards : Text → Text
expand_wildcards [] = []
expand_wildcards (c ∷ []) = c ∷ []
expand_wildcards (c ∷ d ∷ s) =
    let wildcard = codes "/(.*)" ++ expand_wildcards s in
    let plain = c ∷ expand_wildcards (d ∷ s) in if eqb c b'/' && eqb d b'*' then wildcard else plain

-- `.replace(/\/\/+/g, '/')`: of each run of slashes the last one stays.
pub collapse_slashes : Text → Text
collapse_slashes [] = []
collapse_slashes (c ∷ []) = c ∷ []
collapse_slashes (c ∷ d ∷ s) =
    let rest = collapse_slashes (d ∷ s) in if eqb c b'/' && eqb d b'/' then rest else c ∷ rest

-- `.replace(/\/$/, '')`
pub strip_trailing_slash : Text → Text
strip_trailing_slash [] = []
strip_trailing_slash (c ∷ []) = if eqb c b'/' then [] else c ∷ []
strip_trailing_slash (c ∷ d ∷ s) = c ∷ strip_trailing_slash (d ∷ s)

-- `preparedPath` of `factorizeRegExpWithParams`
unfoldable pub prepare_path : Text → Text
unfolding expand_wildcards collapse_slashes strip_trailing_slash
prepare_path path = strip_trailing_slash (collapse_slashes (expand_wildcards path))

-- `key.name !== 0`
is_parameter : KeyName → Bool
is_parameter (named k) = true
is_parameter (unnamed n) = if eqb n 0 then false else true

-- `String(key.name)`
key_text : KeyName → Text
key_text (named k) = k
key_text (unnamed n) = show n

unfoldable pub reg_exp_parameters : List KeyName → List Text
unfolding is_parameter key_text
reg_exp_parameters ks = map key_text (keep is_parameter ks)

-- `regExpParameters.length > 0 ? regExpParameters : undefined`
abbrev some_unless_empty : List Text → Option (List Text)
some_unless_empty [] = none
some_unless_empty (p ∷ ps) = some (p ∷ ps)

module _ (engine : PathToRegexp) where
  open engine use {RegExp, compile, keys}

  pub record ParametricRegExp : Type 0 where
    pub reg_exp : RegExp
    pub parameters : Option (List Text)
    pub path : Text

  unfoldable pub factorize_reg_exp_with_params : Text → ParametricRegExp
  factorize_reg_exp_with_params path = record {
    reg_exp = compile (prepare_path path);
    parameters = some_unless_empty (reg_exp_parameters (keys (prepare_path path)));
    path = prepare_path path;
  }
