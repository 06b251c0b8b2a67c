-- ===== src/Http/Response/Lengths.antt =====
-- `Content-Length` of packages/http/src/response/http.responseHeaders.factory.ts against the body
-- that http.responseBody.factory.ts writes.
use marble_js.Base.{
  ℕ, ◌≡◌, refl, ◌∙◌, Option, none, some, Bool, true, false, not, ◌&&◌, ◌||◌, List, [], ◌∷◌, Text,
  codes, ◌==◌, to_lower_case, lookup, insert, assign, includes, starts_with, or_else, Option-cases,
  inl, inr, length, ltb, ◌≤◌, arith,
}
use marble_js.Http.HeaderValues.{
  HttpHeaders, header_number, content_length_key, get_content_type, get_content_length,
  get_header_value, get_content_type_unsafe, is_json_content_type,
}
use marble_js.Http.Response.{
  Conversions, HttpResponseLike, Body, undefined_body, null_body, stream_body, text_body,
  buffer_body, value_body, content_length, provide_content_length_header,
  provide_content_type_header, default_content_type_headers, content_headers, merged_headers, given,
  factorize_body, factorize_headers, Sent, sent_nothing, sent_error, sent_stream, sent_text,
  sent_buffer,
}
use marble_js.Http.Response.Headers.{last_entry, factorize_headers-lookup, last_entry-eq-none}

module _ (conversions : Conversions) where
  open conversions use {byte_length, buffer_from}

  -- the number of bytes that are sent, where they are known
  unfoldable pub sent_length : Sent conversions → Option ℕ
  sent_length sent_nothing = some 0
  sent_length sent_error = none
  sent_length (sent_stream s) = none
  sent_length (sent_text s) = some (byte_length s)
  sent_length (sent_buffer b) = some (length b)

  -- The bodies whose length the header gives for a content type: every text; a value that is sent as
  -- JSON; a buffer that is sent as it is; and no body, where that is written as nothing.
  abbrev pub is_measured : Text → Body conversions → Bool
  is_measured content_type (text_body s) = true
  is_measured content_type (value_body v) =
      is_json_content_type content_type
      || (not (content_type == codes "application/x-www-form-urlencoded")
          && content_type == codes "application/octet-stream")
  is_measured content_type (buffer_body b) =
      not (is_json_content_type content_type)
      && not (content_type == codes "application/x-www-form-urlencoded")
      && not (content_type == codes "text/plain")
  is_measured content_type undefined_body = is_json_content_type content_type
  is_measured content_type null_body = false
  is_measured content_type (stream_body s) = false

  sent_length-factorize_body :
      (headers : HttpHeaders) (body : Body conversions)
      → ((s : Text) → length (buffer_from s) ≡ byte_length s)
      → is_measured (get_content_type_unsafe headers) body ≡ true
      → sent_length (factorize_body conversions headers body) ≡ content_length conversions body
  unfolding factorize_body sent_length
  sent_length-factorize_body headers (text_body s) from h = ground (arith, from s)
  sent_length-factorize_body headers (value_body v) from h =
      ground (arith, from (conversions.json v))
  sent_length-factorize_body headers (buffer_body b) from h = ground arith
  sent_length-factorize_body headers undefined_body from h = ground arith
  sent_length-factorize_body headers null_body from h = cc
  sent_length-factorize_body headers (stream_body s) from h = cc

  no_length :
      (headers : HttpHeaders)
      → lookup content_length_key headers ≡ none
      → lookup (to_lower_case content_length_key) headers ≡ none
      → get_content_length headers ≡ none
  unfolding get_content_length get_header_value
  no_length headers h l = ground arith

  provide_content_length_header-eq :
      (response : HttpResponseLike conversions) (n : ℕ)
      → content_length conversions response.body ≡ some n
      → provide_content_length_header conversions response
        ≡ (content_length_key, header_number n) ∷ []
  unfolding provide_content_length_header
  provide_content_length_header-eq response n e = ground arith

  default_content_type_headers-length :
      (response : HttpResponseLike conversions) (n : ℕ)
      → given conversions get_content_length response ≡ none
      → content_length conversions response.body ≡ some n
      → last_entry content_length_key (default_content_type_headers conversions response)
        ≡ some (header_number n)
  unfolding default_content_type_headers content_headers provide_content_type_header last_entry
      assign insert ◌==◌
  default_content_type_headers-length response n h e =
      elim (Option-cases (given conversions get_content_type response)) [
        | inl absent ↦ rw absent (rw (provide_content_length_header-eq response n e) refl)
        | inr (t, present) ↦
            rw present (rw h (rw (provide_content_length_header-eq response n e) refl))
      ]

  given_length :
      (response : HttpResponseLike conversions)
      → lookup content_length_key (or_else response.headers []) ≡ none
      → lookup (to_lower_case content_length_key) (or_else response.headers []) ≡ none
      → given conversions get_content_length response ≡ none
  given_length response h l = elim (Option-cases response.headers) [
    | inl absent ↦ rw absent refl
    | inr (headers, present) ↦ rw present (no_length headers (rw present at h) (rw present at l))
  ]

  measured_length :
      (content_type : Text) (body : Body conversions)
      → is_measured content_type body ≡ true
      → content_length conversions body ≡ none
      → ⊥
  measured_length t undefined_body h e = cc
  measured_length t null_body h e = cc
  measured_length t (stream_body s) h e = cc
  measured_length t (text_body s) h e = cc
  measured_length t (buffer_body b) h e = cc
  measured_length t (value_body v) h e = cc

  -- Without normalization, when the response has no `Content-Length` of its own, its body is
  -- measured for its content type, and `Buffer.from` keeps the byte length, the header gives the
  -- number of bytes that are sent.
  pub factorize_headers-factorize_body :
      (response : HttpResponseLike conversions)
      → ((s : Text) → length (buffer_from s) ≡ byte_length s)
      → lookup content_length_key (or_else response.headers []) ≡ none
      → lookup (to_lower_case content_length_key) (or_else response.headers []) ≡ none
      → is_measured
          (get_content_type_unsafe (factorize_headers conversions false response))
          response.body
        ≡ true
      → (n : ℕ) × (lookup content_length_key (factorize_headers conversions false response)
          ≡ some (header_number n))
        × (sent_length (
              factorize_body conversions
                (factorize_headers conversions false response)
                response.body)
            ≡ some n)
  factorize_headers-factorize_body response from h l measured =
      elim (Option-cases (content_length conversions response.body)) [
        | inl streamed ↦ elim (measured_length _ response.body measured streamed) [ ]
        | inr (n, counted) ↦ (
          n,
          factorize_headers-lookup conversions response content_length_key
              ∙ rw (last_entry-eq-none content_length_key (or_else response.headers []) h) (
                  rw
                    (default_content_type_headers-length response n (given_length response h l)
                      counted)
                    refl),
          sent_length-factorize_body (factorize_headers conversions false response) response.body
                from measured
              ∙ counted,
        )
      ]

  -- Without headers of its own and without normalization, a response of an error status with a
  -- `null` body is sent as the text `null` with `Content-Length` 0, and one with a buffer is sent
  -- as the JSON text of the buffer with the length of the buffer.
  factorize_headers-unmeasured :
      (path : Text) (status : ℕ) (b : List ℕ)
      → 400 ≤ status
      → let null_response : HttpResponseLike conversions = record {
        body = null_body;
        path = path;
        status = status;
        headers = none;
      } in
        let buffer_response : HttpResponseLike conversions = record {
          body = buffer_body b;
          path = path;
          status = status;
          headers = none;
        } in
        let null_headers = factorize_headers conversions false null_response in
        let buffer_headers = factorize_headers conversions false buffer_response in
        (lookup content_length_key null_headers ≡ some (header_number 0))
        × (factorize_body conversions null_headers null_body ≡ sent_text (codes "null"))
        × (lookup content_length_key buffer_headers ≡ some (header_number (length b)))
        × (factorize_body conversions buffer_headers (buffer_body b)
            ≡ sent_text (conversions.json_of_buffer b))
  unfolding factorize_headers merged_headers default_content_type_headers factorize_body
      provide_content_type_header provide_content_length_header get_content_type_unsafe
      get_content_type get_header_value is_json_content_type assign insert lookup includes
      starts_with ◌==◌
  factorize_headers-unmeasured path status b h =
      let error : ltb status 400 ≡ false = ground arith in
      (refl, rw error refl, refl, rw error refl)
