-- ===== src/Http/HeaderValues.antt =====
-- The helpers on headers and content types of packages/http/src/+internal.
use marble_js.Base.{
  ℕ, Option, none, some, Bool, List, [], ◌∷◌, Text, codes, includes, to_lower_case, Dict, lookup,
  insert, or_option, or_else, show,
}
use marble_js.Http.Status.{ContentType, content_type_text}

pub data HeaderValue : Type 0 where
  header_number : ℕ → HeaderValue
  header_text : Text → HeaderValue
  header_texts : List Text → HeaderValue

abbrev pub HttpHeaders : Type 0
HttpHeaders = Dict HeaderValue

-- the head of an array, or `String(value)`
abbrev pub header_value_text : HeaderValue → Option Text
header_value_text (header_number n) = some (show n)
header_value_text (header_text s) = some s
header_value_text (header_texts []) = none
header_value_text (header_texts (s ∷ _)) = some s

unfoldable pub get_header_value : Text → HttpHeaders → Option Text
get_header_value key headers =
    elim (or_option (lookup key headers) (lookup (to_lower_case key) headers)) [
      | none ↦ none
      | some v ↦ header_value_text v
    ]

-- `Object.fromEntries` on the entries with their keys in lower case
unfoldable pub normalize_from : HttpHeaders → HttpHeaders → HttpHeaders
normalize_from [] acc = acc
normalize_from ((k, v) ∷ headers) acc = normalize_from headers (insert (to_lower_case k) v acc)

unfoldable pub normalize_headers : HttpHeaders → HttpHeaders
unfolding normalize_from
normalize_headers headers = normalize_from headers []

abbrev pub content_type_key : Text
content_type_key = codes "Content-Type"

abbrev pub content_length_key : Text
content_length_key = codes "Content-Length"

abbrev pub application_json : Text
application_json = content_type_text ContentType.application_json

abbrev pub default_headers : HttpHeaders
default_headers =
    (content_type_key, header_text application_json)
    ∷ (codes "X-Content-Type-Options", header_text (codes "nosniff"))
    ∷ []

unfoldable pub get_content_type : HttpHeaders → Option Text
unfolding get_header_value
get_content_type headers = get_header_value content_type_key headers

unfoldable pub get_content_length : HttpHeaders → Option Text
unfolding get_header_value
get_content_length headers = get_header_value content_length_key headers

unfoldable pub get_content_type_unsafe : HttpHeaders → Text
unfolding get_content_type
get_content_type_unsafe headers = or_else (get_content_type headers) []

unfoldable pub is_json_content_type : Text → Bool
is_json_content_type s = includes s (codes "json")
