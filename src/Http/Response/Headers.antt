-- ===== src/Http/Response/Headers.antt =====
-- Which headers `factorizeHeaders` of packages/http/src/response/http.responseHeaders.factory.ts
-- gives: the response's own win, and the keys are in lower case after normalization.
use marble_js.Base.{
  ℕ, ◌≡◌, refl, ◌∙◌, ap, Option, none, some, Bool, true, false, [], ◌∷◌, Text, ◌==◌, lower,
  to_lower_case, Dict, lookup, insert, assign, lookup-insert, or_option, or_else, AllIn,
  AllIn-insert, if◌then◌else◌, arith,
}
use marble_js.Http.HeaderValues.{
  HttpHeaders, HeaderValue, normalize_from, normalize_headers, default_headers,
}
use marble_js.Http.Response.{
  Conversions, HttpResponseLike, default_content_type_headers, merged_headers, factorize_headers,
}

module _ {ℓ} {V : Type ℓ} where
  -- the value of the last entry with the key
  unfoldable pub last_entry : Text → Dict V → Option V
  last_entry k [] = none
  last_entry k ((j, v) ∷ d) = or_option (last_entry k d) (if j == k then some v else none)

  or_option-if :
      (a : Option V) (b : Bool) (v : V) (o : Option V)
      → or_option a (if b then some v else o)
        ≡ or_option (or_option a (if b then some v else none)) o
  or_option-if none true v o = refl
  or_option-if none false v o = refl
  or_option-if (some a) b v o = refl

  -- The later object of a spread wins.
  lookup-assign :
      (k : Text) (d e : Dict V) → lookup k (assign d e) ≡ or_option (last_entry k e) (lookup k d)
  unfolding assign last_entry
  lookup-assign k d [] = refl
  lookup-assign k d ((j, v) ∷ e) =
      rw (lookup-assign k (insert j v d) e)
        (rw (lookup-insert j k v d) (or_option-if (last_entry k e) (j == k) v (lookup k d)))

  pub last_entry-eq-none : (k : Text) (d : Dict V) → lookup k d ≡ none → last_entry k d ≡ none
  unfolding lookup last_entry
  last_entry-eq-none k [] h = refl
  last_entry-eq-none k ((j, v) ∷ d) h = ground (arith, last_entry-eq-none k d)

lower_idempotent : (c : ℕ) → lower (lower c) ≡ lower c
unfolding lower
lower_idempotent c = ground arith

to_lower_case_idempotent : (s : Text) → to_lower_case (to_lower_case s) ≡ to_lower_case s
unfolding to_lower_case
to_lower_case_idempotent [] = refl
to_lower_case_idempotent (c ∷ s) =
    rw (lower_idempotent c) (ap (λ t. lower c ∷ t) (to_lower_case_idempotent s))

abbrev pub IsLower : Text → HeaderValue → Type 0
IsLower k v = to_lower_case k ≡ k

normalize_from-AllIn :
    (headers acc : HttpHeaders) → AllIn IsLower acc → AllIn IsLower (normalize_from headers acc)
unfolding normalize_from
normalize_from-AllIn [] acc h = h
normalize_from-AllIn ((k, v) ∷ headers) acc h =
    normalize_from-AllIn headers (insert (to_lower_case k) v acc)
      (AllIn-insert IsLower (to_lower_case k) v acc (to_lower_case_idempotent k) h)

module _ (conversions : Conversions) where
  -- With normalization, every header that a response is sent with has a key in lower case.
  factorize_headers-AllIn :
      (response : HttpResponseLike conversions)
      → AllIn IsLower (factorize_headers conversions true response)
  unfolding factorize_headers normalize_headers
  factorize_headers-AllIn response =
      normalize_from-AllIn (merged_headers conversions response) [] tt

  -- Without normalization, a header of the response itself wins over the one derived from its body
  -- and its path, which wins over the default.
  pub factorize_headers-lookup :
      (response : HttpResponseLike conversions) (k : Text)
      → lookup k (factorize_headers conversions false response)
        ≡ or_option (last_entry k (or_else response.headers [])) (
            or_option
              (last_entry k (default_content_type_headers conversions response))
              (lookup k default_headers))
  unfolding factorize_headers merged_headers
  factorize_headers-lookup response k =
      lookup-assign k (assign default_headers (default_content_type_headers conversions response))
        (or_else response.headers [])
      ∙ rw (lookup-assign k default_headers (default_content_type_headers conversions response))
          refl
