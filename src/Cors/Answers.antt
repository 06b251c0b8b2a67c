-- ===== src/Cors/Answers.antt =====
-- What packages/middleware-cors/src/middleware.ts answers: the headers and the status of preflight
-- and of plain requests.
use marble_js.Base.{
  ◌≡◌, refl, ◌∙◌, Option, none, some, Bool, true, false, ◌&&◌, List, [], ◌∷◌, ◌++◌, Text, codes,
  ◌==◌, lookup, if◌then◌else◌, Bool-cases, Option-cases, inl, inr, ℕ,
}
use marble_js.Cors.{
  OriginPatterns, CorsOptions, GivenOptions, CorsRequest, CorsOutcome, handed_on, ended,
  credentials_header, allow_header, max_age_header, expose_header, methods_header, check_origin,
  is_method_refused, with_defaults, configure_preflight_response, configure_response, cors,
  preflight_headers, plain_headers, non_empty,
}
use marble_js.Cors.Configured.{
  AccessControlHeader, header_name, apply_headers, Response, origin, methods,
}
use marble_js.Cors.Headers.{
  last_value, last_value-append, lookup-set_headers, last_value-allow, last_value-max_age,
  last_value-expose, lookup-set_headers_other,
}

origin_first :
    (from : Text) (o : Option Bool)
    → last_value origin (record { key = origin; value = from } ∷ credentials_header o) ≡ some from
unfolding last_value ◌==◌
origin_first from none = refl
origin_first from (some true) = refl
origin_first from (some false) = refl

module _ (patterns : OriginPatterns) where
  abbrev pub answered : CorsOutcome patterns → Response
  answered (handed_on res) = res
  answered (ended res) = res

  last_value-methods :
      (k : AccessControlHeader) (o : Option (List Text)) (requested : Option Text)
      (status : Option ℕ)
      → (header_name methods == header_name k) ≡ false
      → last_value k (methods_header patterns o requested status).1 ≡ none
  unfolding last_value methods_header
  last_value-methods k none requested status h = refl
  last_value-methods k (some []) requested status h = refl
  last_value-methods k (some (m ∷ ms)) requested status h =
      elim (Bool-cases (is_method_refused requested (m ∷ ms))) [
        | inl refused ↦ rw refused refl
        | inr fine ↦ rw fine (rw h refl)
      ]

  preflight_headers-origin :
      (from : Text) (requested : Option Text) (options : CorsOptions patterns)
      → last_value origin (preflight_headers patterns from requested options) ≡ some from
  unfolding preflight_headers ◌==◌
  preflight_headers-origin from requested options =
      let cs =
        record { key = origin; value = from } ∷ credentials_header options.with_credentials in
      let allow = allow_header options.allow_headers in
      let ms = max_age_header options.age in
      rw
        (last_value-append origin (cs ++ allow ++ ms)
          (methods_header patterns options.allowed_methods requested
            options.options_success_status).1)
        (rw
          (last_value-methods origin options.allowed_methods requested
            options.options_success_status refl)
          (rw (last_value-append origin (cs ++ allow) ms) (
            rw (last_value-max_age origin options.age refl) (
              rw (last_value-append origin cs allow) (
                rw (last_value-allow origin options.allow_headers refl)
                  (origin_first from options.with_credentials))))))

  plain_headers-origin :
      (from : Text) (options : CorsOptions patterns)
      → last_value origin (plain_headers patterns from options) ≡ some from
  unfolding plain_headers ◌==◌
  plain_headers-origin from options =
      rw
        (last_value-append origin
          (record { key = origin; value = from } ∷ credentials_header options.with_credentials)
          (expose_header options.exposed_headers))
        (rw (last_value-expose origin options.exposed_headers refl)
          (origin_first from options.with_credentials))

  -- The answer to a preflight allows the origin of the request exactly when the option `origin`
  -- accepts it; when it does not, the header `Access-Control-Allow-Origin` stays as it was.
  pub configure_preflight_response-origin :
      (from : Text) (requested : Option Text) (options : CorsOptions patterns) (res : Response)
      → lookup
          (header_name origin)
          (configure_preflight_response patterns from requested options res).header_values
        ≡ (if check_origin patterns from options.allowed_origin
            then some from
            else lookup (header_name origin) res.header_values)
  unfolding configure_preflight_response apply_headers
  configure_preflight_response-origin from requested options res =
      elim (Bool-cases (check_origin patterns from options.allowed_origin)) [
        | inl accepted ↦ rw accepted (
            lookup-set_headers origin (preflight_headers patterns from requested options)
              res.header_values
            ∙ rw (preflight_headers-origin from requested options) refl)
        | inr refused ↦ rw refused refl
      ]

  unfoldable pub refuses : Option (List Text) → Option Text → Bool
  unfolding is_method_refused
  refuses none requested = false
  refuses (some ms) requested = non_empty ms && is_method_refused requested ms

  status_lem :
      (o : Option (List Text)) (requested : Option Text) (status : Option ℕ)
      → (methods_header patterns o requested status).0
        ≡ (if refuses o requested then some 405 else status)
  unfolding methods_header refuses
  status_lem none requested status = refl
  status_lem (some []) requested status = refl
  status_lem (some (m ∷ ms)) requested status =
      elim (Bool-cases (is_method_refused requested (m ∷ ms))) [
        | inl refused ↦ rw refused refl
        | inr fine ↦ rw fine refl
      ]

  -- A preflight is answered with 405 exactly when its origin is accepted and it asks for a method
  -- that the list of the option `methods`, not empty, lacks; else with `optionsSuccessStatus`, for a
  -- refused origin too.
  configure_preflight_response-status :
      (from : Text) (requested : Option Text) (options : CorsOptions patterns) (res : Response)
      → (configure_preflight_response patterns from requested options res).status_code ≡ (
          if check_origin patterns from options.allowed_origin
            && refuses options.allowed_methods requested
          then some 405
          else options.options_success_status)
  unfolding configure_preflight_response apply_headers
  configure_preflight_response-status from requested options res =
      elim (Bool-cases (check_origin patterns from options.allowed_origin)) [
        | inl accepted ↦
            rw accepted
              (status_lem options.allowed_methods requested options.options_success_status)
        | inr refused ↦ rw refused refl
      ]

  -- A request that has an origin and is no preflight is handed on with its own origin allowed,
  -- whatever the options are.
  cors-any_origin :
      (options : GivenOptions patterns) (req : CorsRequest) (res : Response) (from : Text)
      → req.origin_header ≡ some from
      → (req.method == codes "OPTIONS") ≡ false
      → (handed : Response) × (cors patterns options req res ≡ handed_on handed)
        × (lookup (header_name origin) handed.header_values ≡ some from)
  unfolding cors configure_response apply_headers
  cors-any_origin options req res from h plain = (
    configure_response patterns from (with_defaults patterns options) res,
    rw h (rw plain refl),
    lookup-set_headers origin (plain_headers patterns from (with_defaults patterns options))
          res.header_values
        ∙ rw (plain_headers-origin from (with_defaults patterns options)) refl,
  )

  -- The middleware changes no header but the six of `AccessControlHeader`.
  cors-other_headers :
      (options : GivenOptions patterns) (req : CorsRequest) (res : Response) (k : Text)
      → ((a : AccessControlHeader) → (header_name a == k) ≡ false)
      → lookup k (answered (cors patterns options req res)).header_values
        ≡ lookup k res.header_values
  unfolding cors configure_response configure_preflight_response apply_headers
  cors-other_headers options req res k h = elim (Option-cases req.origin_header) [
    | inl absent ↦ rw absent refl
    | inr (from, given) ↦ rw given (elim (Bool-cases (req.method == codes "OPTIONS")) [
      | inl preflight ↦
          rw preflight
            (elim (Bool-cases
              (check_origin patterns from (with_defaults patterns options).allowed_origin)) [
                | inl accepted ↦ rw accepted (
                    lookup-set_headers_other k
                      (preflight_headers patterns from req.request_method
                        (with_defaults patterns options))
                      res.header_values h)
                | inr refused ↦ rw refused refl
              ])
      | inr plain ↦ rw plain (
          lookup-set_headers_other k (plain_headers patterns from (with_defaults patterns options))
            res.header_values h)
    ])
  ]
