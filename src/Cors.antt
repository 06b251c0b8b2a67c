-- ===== src/Cors.antt =====
-- packages/middleware-cors/src: the options, the check of an origin, the headers of a preflight and
-- of a plain answer, and the middleware `cors$` on one request. Regular expressions are a parameter;
-- a text option that is no regular expression makes `match` throw, which is not modelled.
mod Configured
mod Capitalize
mod Headers
mod Answers
mod Tests
use marble_js.Base.{
  ℕ, Option, none, some, Bool, true, false, not, ◌&&◌, ◌||◌, List, [], ◌∷◌, ◌++◌, map, Text, codes,
  ◌==◌, or_else, any, show, eqb, if◌then◌else◌,
}
use marble_js.Cors.Configured.{
  AccessControlHeader, origin, methods, headers, credentials, max_age, expose_headers,
  ConfiguredHeader, Response, apply_headers, join, capitalize,
}

-- `RegExp` with `test`, and `origin.match(option)` on a text option, as a truth value
pub record OriginPatterns : Type 1 where
  pub RegExp : Type 0
  pub test : RegExp → Text → Bool
  pub match : Text → Text → Bool

pub data AllowHeaders : Type 0 where
  header_text : Text → AllowHeaders
  header_list : List Text → AllowHeaders

pub record CorsRequest : Type 0 where
  pub method : Text
  pub origin_header : Option Text
  pub request_method : Option Text

abbrev pub non_empty : List Text → Bool
non_empty [] = false
non_empty (_ ∷ _) = true

abbrev pub includes_text : Text → List Text → Bool
includes_text s xs = any (λ x. x == s) xs

-- `req.headers['access-control-request-method'] && !options.methods.includes(…)`
unfoldable pub is_method_refused : Option Text → List Text → Bool
is_method_refused none ms = false
is_method_refused (some []) ms = false
is_method_refused (some (c ∷ s)) ms = not (includes_text (c ∷ s) ms)

-- a header whose value is a list of capitalized names, unless the list is empty
unfoldable pub capitalized_header : AccessControlHeader → List Text → List ConfiguredHeader
unfolding capitalize
capitalized_header k [] = []
capitalized_header k (x ∷ xs) =
    record { key = k; value = join (codes ", ") (map capitalize (x ∷ xs)) } ∷ []

abbrev pub credentials_header : Option Bool → List ConfiguredHeader
credentials_header (some true) = record { key = credentials; value = codes "true" } ∷ []
credentials_header _ = []

unfoldable pub allow_header : Option AllowHeaders → List ConfiguredHeader
unfolding capitalized_header
allow_header none = []
allow_header (some (header_text s)) =
    if s == codes "*" then record { key = headers; value = codes "*" } ∷ [] else []
allow_header (some (header_list xs)) = capitalized_header headers xs

abbrev pub max_age_header : Option ℕ → List ConfiguredHeader
max_age_header none = []
max_age_header (some n) = if eqb n 0 then [] else record { key = max_age; value = show n } ∷ []

unfoldable pub expose_header : Option (List Text) → List ConfiguredHeader
unfolding capitalized_header
expose_header none = []
expose_header (some xs) = capitalized_header expose_headers xs

module _ (patterns : OriginPatterns) where
  open patterns use {RegExp, test, match}

  -- `string | string[] | RegExp`
  pub data OriginOption : Type 0 where
    origin_text : Text → OriginOption
    origin_list : List Text → OriginOption
    origin_pattern : RegExp → OriginOption

  pub record CorsOptions : Type 0 where
    pub allowed_origin : Option OriginOption
    pub allowed_methods : Option (List Text)
    pub options_success_status : Option ℕ
    pub allow_headers : Option AllowHeaders
    pub exposed_headers : Option (List Text)
    pub with_credentials : Option Bool
    pub age : Option ℕ

  -- `DEFAULT_OPTIONS`
  unfoldable pub default_options : CorsOptions
  default_options = record {
    allowed_origin = some (origin_text (codes "*"));
    allowed_methods = some (
        codes "HEAD"
        ∷ codes "GET"
        ∷ codes "POST"
        ∷ codes "PUT"
        ∷ codes "PATCH"
        ∷ codes "DELETE"
        ∷ codes "OPTIONS"
        ∷ []);
    options_success_status = some 204;
    allow_headers = none;
    exposed_headers = none;
    with_credentials = some false;
    age = none;
  }

  -- The options as they are given: `none` for one that is not, `some none` for `undefined`.
  pub record GivenOptions : Type 0 where
    pub given_origin : Option (Option OriginOption)
    pub given_methods : Option (Option (List Text))
    pub given_success_status : Option (Option ℕ)
    pub given_allow_headers : Option (Option AllowHeaders)
    pub given_exposed_headers : Option (Option (List Text))
    pub given_credentials : Option (Option Bool)
    pub given_age : Option (Option ℕ)

  -- `{ ...DEFAULT_OPTIONS, ...options }`: an `undefined` that is given takes the place of a default
  unfoldable pub with_defaults : GivenOptions → CorsOptions
  unfolding default_options
  with_defaults o = record {
    allowed_origin = or_else o.given_origin default_options.allowed_origin;
    allowed_methods = or_else o.given_methods default_options.allowed_methods;
    options_success_status = or_else o.given_success_status default_options.options_success_status;
    allow_headers = or_else o.given_allow_headers default_options.allow_headers;
    exposed_headers = or_else o.given_exposed_headers default_options.exposed_headers;
    with_credentials = or_else o.given_credentials default_options.with_credentials;
    age = or_else o.given_age default_options.age;
  }

  -- checkStringOrigin.ts, checkArrayOrigin.ts, checkRegexpOrigin.ts
  abbrev pub check_string_origin : Text → OriginOption → Bool
  check_string_origin from (origin_text s) = if s == codes "*" then true else match s from
  check_string_origin from _ = false

  abbrev pub check_array_origin : Text → OriginOption → Bool
  check_array_origin from (origin_list xs) = non_empty xs && includes_text from xs
  check_array_origin from _ = false

  abbrev pub check_regexp_origin : Text → OriginOption → Bool
  check_regexp_origin from (origin_pattern r) = test r from
  check_regexp_origin from _ = false

  unfoldable pub check_origin : Text → Option OriginOption → Bool
  check_origin from none = false
  check_origin from (some o) =
      check_string_origin from o || check_array_origin from o || check_regexp_origin from o

  -- the last test of `configurePreflightResponse`: the status and the header of the methods
  unfoldable pub methods_header :
      Option (List Text) → Option Text → Option ℕ → Option ℕ × List ConfiguredHeader
  unfolding is_method_refused
  methods_header none requested status = (status, [])
  methods_header (some []) requested status = (status, [])
  methods_header (some (m ∷ ms)) requested status =
      if is_method_refused requested (m ∷ ms)
      then (some 405, [])
      else (status, record { key = methods; value = join (codes ", ") (m ∷ ms) } ∷ [])

  -- `headers` at the end of `configurePreflightResponse` and of `configureResponse`
  unfoldable pub preflight_headers : Text → Option Text → CorsOptions → List ConfiguredHeader
  preflight_headers from requested options =
      record { key = origin; value = from } ∷ credentials_header options.with_credentials
      ++ allow_header options.allow_headers
      ++ max_age_header options.age
      ++ (methods_header options.allowed_methods requested options.options_success_status).1

  unfoldable pub configure_preflight_response :
      Text → Option Text → CorsOptions → Response → Response
  unfolding check_origin preflight_headers methods_header apply_headers
  configure_preflight_response from requested options res =
      let status = options.options_success_status in
      if check_origin from options.allowed_origin
      then apply_headers (preflight_headers from requested options)
          (record res { status_code = (methods_header options.allowed_methods requested status).0 })
      else record res { status_code = status }

  unfoldable pub plain_headers : Text → CorsOptions → List ConfiguredHeader
  plain_headers from options =
      record { key = origin; value = from } ∷ credentials_header options.with_credentials
      ++ expose_header options.exposed_headers

  unfoldable pub configure_response : Text → CorsOptions → Response → Response
  unfolding plain_headers apply_headers
  configure_response from options res = apply_headers (plain_headers from options) res

  -- What the middleware does with one request: it hands it on, or ends its response.
  pub data CorsOutcome : Type 0 where
    handed_on : Response → CorsOutcome
    ended : Response → CorsOutcome

  -- `isCORSRequest` holds of a request whose header `origin` is no text.
  unfoldable pub cors : GivenOptions → CorsRequest → Response → CorsOutcome
  unfolding with_defaults configure_preflight_response configure_response
  cors options req res = elim req.origin_header [
    | none ↦ handed_on res
    | some from ↦
        if req.method == codes "OPTIONS"
        then ended
            (configure_preflight_response from req.request_method (with_defaults options) res)
        else handed_on (configure_response from (with_defaults options) res)
  ]
