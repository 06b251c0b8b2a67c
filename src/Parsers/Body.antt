-- ===== src/Parsers/Body.antt =====
-- packages/middleware-body/src/body.middleware.ts, body.util.ts and parsers: which requests have
-- their body parsed, and by what. The packages `type-is`, `content-type` and `qs`, `JSON.parse` and
-- the decoding of a buffer are parameters; a buffer is the text of its chunks.
use marble_js.Base.{
  ◌≡◌, refl, Option, none, some, Bool, true, not, ◌&&◌, List, [], ◌∷◌, ◌++◌, Text, codes, ◌==◌, any,
  includes, is_some, or_else, if◌then◌else◌, inl, inr, Bool-cases,
}

-- What a parser gives: a value, `undefined`, or what it throws as a text.
pub data Parsed (B : Type 0) : Type 0 where
  parsed : B → Parsed B
  undefined : Parsed B
  parse_threw : Text → Parsed B

-- What the middleware reads of a request: `body` is none for `undefined` and `null`.
pub record BodyRequest (B : Type 0) : Type 0 where
  pub method : Text
  pub content_type : Option Text
  pub chunks : List Text
  pub body : Option B

-- The functions of the packages: `typeIs.is` (none for `false`), the text of a buffer in the charset
-- of a content type or an error, `JSON.parse`, `qs.parse`, and a text and a buffer as values.
pub record BodyTools (B : Type 0) : Type 0 where
  pub type_is : Text → List Text → Option Text
  pub decode_text : Text → Text → Option Text
  pub parse_json : Text → Parsed B
  pub parse_query : Text → B
  pub text_value : Text → B
  pub raw_value : Text → B
  pub content_type_error : Text

abbrev pub content_type_unsafe : Option Text → Text
content_type_unsafe header = or_else header (codes "")

abbrev pub supported_content_types : List Text
supported_content_types =
    codes "json"
    ∷ codes "urlencoded"
    ∷ codes "application/octet-stream"
    ∷ codes "text"
    ∷ codes "html"
    ∷ []

abbrev pub is_parseable : Text → Bool
is_parseable method = any (λ m. m == method) (codes "POST" ∷ codes "PUT" ∷ codes "PATCH" ∷ [])

-- `Buffer.concat(chunks)`
abbrev pub concat : List Text → Text
concat [] = []
concat (chunk ∷ chunks) = chunk ++ concat chunks

module _ {B : Type 0} (tools : BodyTools B) where
  abbrev pub with_text : (Text → Parsed B) → Option Text → Parsed B
  with_text parse none = parse_threw tools.content_type_error
  with_text parse (some text) = parse text

  unfoldable pub json_parser : Text → Text → Parsed B
  json_parser content_type body = with_text tools.parse_json (tools.decode_text content_type body)

  unfoldable pub url_encoded_parser : Text → Text → Parsed B
  url_encoded_parser content_type body =
      with_text (λ t. parsed (tools.parse_query t)) (tools.decode_text content_type body)

  unfoldable pub text_parser : Text → Text → Parsed B
  text_parser content_type body =
      with_text (λ t. parsed (tools.text_value t)) (tools.decode_text content_type body)

  unfoldable pub raw_parser : Text → Text → Parsed B
  raw_parser content_type body = parsed (tools.raw_value body)

  unfoldable pub parser_of : Option Text → Text → Text → Parsed B
  unfolding json_parser url_encoded_parser raw_parser text_parser
  parser_of none content_type body = undefined
  parser_of (some type) content_type body =
      if type == codes "json"
      then json_parser content_type body
      else if type == codes "urlencoded"
      then url_encoded_parser content_type body
      else if type == codes "application/octet-stream"
      then raw_parser content_type body
      else if type == codes "text"
      then text_parser content_type body
      else if type == codes "html"
      then text_parser content_type body
      else undefined

  -- `defaultParser`
  unfoldable pub default_parser : Text → Text → Parsed B
  unfolding parser_of
  default_parser content_type body =
      parser_of (tools.type_is content_type supported_content_types) content_type body

  unfoldable pub should_parse : List Text → BodyRequest B → Bool
  should_parse types req =
      is_parseable req.method
      && not (is_some req.body)
      && not (includes (content_type_unsafe req.content_type) (codes "multipart/"))
      && is_some (tools.type_is (content_type_unsafe req.content_type) types)

-- What the middleware emits: the request, or an `HttpError` with its message and status.
pub data BodyOutcome (B : Type 0) : Type 0 where
  passes : BodyRequest B → BodyOutcome B
  bad_request : Text → BodyOutcome B

abbrev pub body_error : Text → Text
body_error error = codes "Request body parse error: \"" ++ error ++ codes "\""

module _ {B : Type 0} where
  unfoldable pub with_body : BodyRequest B → Parsed B → BodyOutcome B
  with_body req (parsed body) = passes (record req { body = some body })
  with_body req undefined = passes (record req { body = none })
  with_body req (parse_threw error) = bad_request (body_error error)

  -- `bodyParser$` on one request
  unfoldable pub body_parser :
      BodyTools B → List Text → (Text → Text → Parsed B) → BodyRequest B → BodyOutcome B
  unfolding should_parse with_body
  body_parser tools types parser req =
      if should_parse tools types req
      then with_body req (parser (content_type_unsafe req.content_type) (concat req.chunks))
      else passes req

  abbrev pub then_parse : (BodyRequest B → BodyOutcome B) → BodyOutcome B → BodyOutcome B
  then_parse next (passes req) = next req
  then_parse next (bad_request error) = bad_request error

  abbrev pub IsSettled : BodyOutcome B → Type 0
  IsSettled (passes req) = is_some req.body ≡ true
  IsSettled (bad_request error) = Unit

  parse-settled :
      (tools : BodyTools B) (types : List Text) (parser : Text → Text → Parsed B)
      (outcome : BodyOutcome B)
      → IsSettled outcome
      → then_parse (body_parser tools types parser) outcome ≡ outcome
  unfolding body_parser should_parse
  parse-settled tools types parser (bad_request error) h = refl
  parse-settled tools types parser (passes req) h = elim (Bool-cases (is_parseable req.method)) [
    | inl is ↦ rw h (rw is refl)
    | inr other ↦ rw h (rw other refl)
  ]

  -- A second body parser, whatever its options, changes nothing after a first one that gave the
  -- request a body or failed.
  body_parser-body_parser :
      (tools : BodyTools B) (types more : List Text) (first second : Text → Text → Parsed B)
      (req : BodyRequest B)
      → IsSettled (body_parser tools types first req)
      → then_parse (body_parser tools more second) (body_parser tools types first req)
        ≡ body_parser tools types first req
  body_parser-body_parser tools types more first second req h =
      parse-settled tools more second (body_parser tools types first req) h
