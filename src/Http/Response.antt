-- ===== src/Http/Response.antt =====
-- packages/http/src/response: the headers and the body of a response. The conversions of Node.js, `qs`, `mime` and
-- `file-type` are a parameter.
pub mod Headers
pub mod Lengths
mod Tests
use marble_js.Base.{
  ℕ, Option, none, some, Bool, List, [], ◌∷◌, Text, codes, ◌==◌, assign, or_option, or_else, ltb,
  if◌then◌else◌, length,
}
use marble_js.Http.Status.{
  HttpStatus, status_code, content_type_text, application_x_www_form_urlencoded,
  application_octet_stream, text_plain,
}
use marble_js.Http.HeaderValues.{
  header_number, header_text, HttpHeaders, normalize_headers, content_type_key, content_length_key,
  application_json, default_headers, get_content_type, get_content_length, get_content_type_unsafe,
  is_json_content_type,
}

-- `Value` stands for what is no text, buffer or stream, and neither `null` nor `undefined`.
pub record Conversions : Type 1 where
  pub Stream : Type 0
  pub Value : Type 0
  -- `JSON.stringify`, `qs.stringify` and `String`, on values and on buffers
  pub json : Value → Text
  pub query : Value → Text
  pub text : Value → Text
  pub json_of_buffer : List ℕ → Text
  pub query_of_buffer : List ℕ → Text
  pub text_of_buffer : List ℕ → Text
  -- `Buffer.byteLength` and `Buffer.from` on texts
  pub byte_length : Text → ℕ
  pub buffer_from : Text → List ℕ
  -- `fileType(buffer).mime`, `mime.getType` and `url.parse(…).pathname`
  pub file_type : List ℕ → Option Text
  pub mime_type : Text → Option Text
  pub path_name : Text → Option Text

module _ (conversions : Conversions) where
  open conversions use {
    Stream, Value, json, query, text, json_of_buffer, query_of_buffer, text_of_buffer, byte_length,
    buffer_from, file_type, mime_type, path_name,
  }

  pub data Body : Type 0 where
    undefined_body null_body : Body
    stream_body : Stream → Body
    text_body : Text → Body
    buffer_body : List ℕ → Body
    value_body : Value → Body

  pub record HttpResponseLike : Type 0 where
    pub body : Body
    pub path : Text
    pub status : ℕ
    pub headers : Option HttpHeaders

  -- `contentLength` of a body that is no stream
  abbrev pub content_length : Body → Option ℕ
  content_length undefined_body = some 0
  content_length null_body = some 0
  content_length (stream_body s) = none
  content_length (text_body s) = some (byte_length s)
  content_length (buffer_body b) = some (length b)
  content_length (value_body v) = some (byte_length (json v))

  unfoldable pub provide_content_length_header : HttpResponseLike → HttpHeaders
  provide_content_length_header response = elim (content_length response.body) [
    | none ↦ []
    | some n ↦ (content_length_key, header_number n) ∷ []
  ]

  -- `fileType(body)?.mime` of a buffer
  abbrev pub mime_from_buffer : Body → Option Text
  mime_from_buffer (buffer_body b) = file_type b
  mime_from_buffer _ = none

  unfoldable pub get_mime_type : Body → Text → Option Text
  get_mime_type body path = or_option (mime_from_buffer body) (mime_type path)

  unfoldable pub provide_content_type_header : HttpResponseLike → HttpHeaders
  unfolding get_mime_type
  provide_content_type_header response =
      let content_type =
        if ltb response.status 400
        then get_mime_type response.body response.path
        else some application_json in
      (content_type_key, header_text (or_else content_type application_json)) ∷ []

  -- `O.fromNullable(response.headers)` followed by a reading of one header
  abbrev pub given : (HttpHeaders → Option Text) → HttpResponseLike → Option Text
  given read response = elim response.headers [ none ↦ none | some headers ↦ read headers ]

  -- the two folds, on the given type, the given length, and the headers that are provided
  unfoldable pub content_headers :
      Option Text → Option Text → HttpHeaders → HttpHeaders → HttpHeaders
  content_headers none given_length type_header length_header = assign type_header length_header
  content_headers (some t) none type_header length_header = length_header
  content_headers (some t) (some n) type_header length_header = []

  unfoldable pub default_content_type_headers : HttpResponseLike → HttpHeaders
  unfolding provide_content_type_header provide_content_length_header get_content_type
      get_content_length content_headers
  default_content_type_headers response =
      content_headers (given get_content_type response) (given get_content_length response)
        (provide_content_type_header response) (provide_content_length_header response)

  unfoldable pub merged_headers : HttpResponseLike → HttpHeaders
  unfolding default_content_type_headers
  merged_headers response =
      assign (assign default_headers (default_content_type_headers response))
        (or_else response.headers [])

  -- with `config.useHttpHeadersNormalization`
  unfoldable pub factorize_headers : Bool → HttpResponseLike → HttpHeaders
  unfolding merged_headers normalize_headers
  factorize_headers should_normalize response =
      if should_normalize
      then normalize_headers (merged_headers response)
      else merged_headers response

  -- What is handed to `res.end`, or piped; `Buffer.from(undefined)` throws.
  pub data Sent : Type 0 where
    sent_nothing sent_error : Sent
    sent_stream : Stream → Sent
    sent_text : Text → Sent
    sent_buffer : List ℕ → Sent

  abbrev pub unchanged : Body → Sent
  unchanged undefined_body = sent_nothing
  unchanged null_body = sent_nothing
  unchanged (stream_body s) = sent_stream s
  unchanged (text_body s) = sent_text s
  unchanged (buffer_body b) = sent_buffer b
  -- a value in a call of `res.end` makes it throw
  unchanged (value_body v) = sent_error

  abbrev pub stringify_json : Body → Sent
  stringify_json undefined_body = sent_nothing
  stringify_json null_body = sent_text (codes "null")
  stringify_json (stream_body s) = sent_stream s
  stringify_json (text_body s) = sent_text s
  stringify_json (buffer_body b) = sent_text (json_of_buffer b)
  stringify_json (value_body v) = sent_text (json v)

  abbrev pub transform_url_encoded : Body → Sent
  transform_url_encoded undefined_body = sent_text []
  transform_url_encoded null_body = sent_text []
  transform_url_encoded (stream_body s) = sent_stream s
  transform_url_encoded (text_body s) = sent_text s
  transform_url_encoded (buffer_body b) = sent_text (query_of_buffer b)
  transform_url_encoded (value_body v) = sent_text (query v)

  abbrev pub to_buffer : Body → Sent
  to_buffer undefined_body = sent_error
  to_buffer null_body = sent_buffer (buffer_from (codes "null"))
  to_buffer (stream_body s) = sent_stream s
  to_buffer (text_body s) = sent_buffer (buffer_from s)
  to_buffer (buffer_body b) = sent_buffer b
  to_buffer (value_body v) = sent_buffer (buffer_from (json v))

  abbrev pub to_text : Body → Sent
  to_text undefined_body = sent_text (codes "undefined")
  to_text null_body = sent_text (codes "null")
  to_text (stream_body s) = sent_stream s
  to_text (text_body s) = sent_text s
  to_text (buffer_body b) = sent_text (text_of_buffer b)
  to_text (value_body v) = sent_text (text v)

  -- `factorizeBody` hands on a stream before it looks at the content type, as do the five above.
  unfoldable pub factorize_body : HttpHeaders → Body → Sent
  unfolding get_content_type_unsafe is_json_content_type
  factorize_body headers body =
      let content_type = get_content_type_unsafe headers in
      if is_json_content_type content_type
      then stringify_json body
      else if content_type == content_type_text application_x_www_form_urlencoded
      then transform_url_encoded body
      else if content_type == content_type_text application_octet_stream
      then to_buffer body
      else if content_type == content_type_text text_plain
      then to_text body
      else unchanged body

  pub record HttpEffectResponse : Type 0 where
    pub status : Option ℕ
    pub body : Body
    pub headers : Option HttpHeaders

  pub data Handled : Type 0 where
    already_ended : Handled
    written : ℕ → HttpHeaders → Sent → Handled

  -- the status, the headers and the body that `handleResponse` writes
  unfoldable pub handle_response : Bool → Bool → Text → HttpEffectResponse → Handled
  unfolding factorize_headers factorize_body
  handle_response should_normalize writable_ended url effect =
      let status = or_else effect.status (status_code HttpStatus.ok) in
      let headers = factorize_headers should_normalize (record {
        body = effect.body;
        path = or_else (path_name url) [];
        status = status;
        headers = effect.headers;
      }) in
      if writable_ended
      then already_ended
      else written status headers (factorize_body headers effect.body)
