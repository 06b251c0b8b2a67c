-- ===== src/Http/Response/Tests.antt =====
-- The headers and bodies of packages/http/src/response on concrete responses, with conversions that
-- write a value as `{}` and know no type of a file.
use marble_js.Base.{
  ℕ, ◌≡◌, refl, none, some, false, [], ◌∷◌, codes, ◌==◌, includes, starts_with, lookup, insert,
  assign, to_lower_case, lower, length,
}
use marble_js.Http.HeaderValues.{
  content_length_key, header_number, header_text, get_content_type_unsafe, get_content_type,
  get_header_value, get_content_length, is_json_content_type,
}
use marble_js.Http.Response.{
  Conversions, HttpResponseLike, value_body, factorize_headers, merged_headers,
  default_content_type_headers, content_headers, provide_content_type_header,
  provide_content_length_header, factorize_body,
}
use marble_js.Http.Response.Lengths.{sent_length, factorize_headers-factorize_body}

abbrev conversions : Conversions
conversions = record {
  Stream = ℕ;
  Value = ℕ;
  json = λ v. codes "{}";
  query = λ v. codes "a=1";
  text = λ v. codes "[object Object]";
  json_of_buffer = λ b. codes "{}";
  query_of_buffer = λ b. [];
  text_of_buffer = λ b. b;
  byte_length = λ s. length s;
  buffer_from = λ s. s;
  file_type = λ b. none;
  mime_type = λ p. none;
  path_name = λ u. some u;
}

abbrev created : HttpResponseLike conversions
created = record {
  body = value_body 7;
  path = codes "/";
  status = 201;
  headers = some ((codes "X-Id", header_text (codes "1")) ∷ []);
}

factorize_headers-factorize_body_example :
    (n : ℕ) × (lookup content_length_key (factorize_headers conversions false created)
      ≡ some (header_number n))
    × (sent_length conversions
          (factorize_body conversions (factorize_headers conversions false created) created.body)
        ≡ some n)
unfolding factorize_headers merged_headers default_content_type_headers content_headers
    provide_content_type_header provide_content_length_header get_content_type_unsafe
    get_content_type get_header_value get_content_length is_json_content_type assign insert lookup
    includes starts_with ◌==◌ to_lower_case lower
factorize_headers-factorize_body_example =
    factorize_headers-factorize_body conversions created (λ s. refl) refl refl refl
