-- ===== src/Cors/Tests.antt =====
-- The middleware of packages/middleware-cors/src on concrete requests, with texts in place of
-- regular expressions: a text matches an origin that starts with it.
use marble_js.Base.{
  ◌≡◌, refl, none, some, true, false, [], ◌∷◌, Text, codes, ◌==◌, lookup, starts_with,
  if◌then◌else◌,
}
use marble_js.Cors.{
  OriginPatterns, CorsOptions, origin_text, CorsRequest, configure_preflight_response, check_origin,
}
use marble_js.Cors.Configured.{AccessControlHeader, header_name, origin, Response, capitalize}
use marble_js.Cors.Answers.{configure_preflight_response-origin}

abbrev patterns : OriginPatterns
patterns = record { RegExp = Text; test = λ r s. starts_with s r; match = λ r s. starts_with s r }

abbrev example_options : CorsOptions patterns
example_options = record {
  allowed_origin = some (origin_text (codes "http://a"));
  allowed_methods = some (codes "GET" ∷ []);
  options_success_status = some 204;
  allow_headers = none;
  exposed_headers = none;
  with_credentials = some true;
  age = none;
}

abbrev fresh : Response
fresh = record { status_code = none; header_values = (codes "Vary", codes "Origin") ∷ [] }

abbrev evil : CorsRequest
evil = record {
  method = codes "GET";
  origin_header = some (codes "http://evil");
  request_method = none;
}

capitalize_tests : capitalize (codes "x-custom-header") ≡ codes "X-Custom-Header"
unfolding capitalize
capitalize_tests = refl

-- the longer origin is accepted too
check_origin_tests :
    (check_origin patterns (codes "http://a.evil") example_options.allowed_origin ≡ true)
    × (check_origin patterns (codes "http://evil") example_options.allowed_origin ≡ false)
unfolding check_origin ◌==◌ starts_with
check_origin_tests = (refl, refl)

configure_preflight_response-origin_example :
    lookup
      (header_name origin)
      (configure_preflight_response patterns
        (codes "http://evil")
        none
        example_options
        fresh).header_values
    ≡ (if check_origin patterns (codes "http://evil") example_options.allowed_origin
        then some (codes "http://evil")
        else lookup (header_name origin) fresh.header_values)
configure_preflight_response-origin_example =
    configure_preflight_response-origin patterns (codes "http://evil") none example_options fresh

not_vary : (a : AccessControlHeader) → (header_name a == codes "Vary") ≡ false
unfolding ◌==◌
not_vary AccessControlHeader.origin = refl
not_vary AccessControlHeader.methods = refl
not_vary AccessControlHeader.headers = refl
not_vary AccessControlHeader.credentials = refl
not_vary AccessControlHeader.max_age = refl
not_vary AccessControlHeader.expose_headers = refl
