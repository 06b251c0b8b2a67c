-- ===== src/Io/Validation.antt =====
-- packages/middleware-io/src: io.middleware.ts, io.reporter.ts and io.request.middleware.ts, on one
-- request. A schema is what it decodes, which io-ts does; of a value the model has what is printed.
-- The metadata of a request is not modelled.
pub mod Accepted
use marble_js.Base.{
  ℕ, Option, none, some, Bool, true, false, List, [], ◌∷◌, ◌++◌, map, Text, codes, or_else, keep,
}
use marble_js.Io.{non_empty_text}

-- an entry of the context of an error: its key and the name of its type
pub record ContextEntry : Type 0 where
  pub key : Text
  pub type_name : Text

-- `t.ValidationError`
pub record ValidationError (V : Type 0) : Type 0 where
  pub value : V
  pub context : List ContextEntry

-- the `Either` that `decode` returns
pub data IoDecoded (V : Type 0) : Type 0 where
  decoding_failed : List (ValidationError V) → IoDecoded V
  decoded_value : V → IoDecoded V

-- `ReporterResult`
pub record ReporterResult : Type 0 where
  pub path : Text
  pub expected : Text
  pub got : Option Text

-- `join('.')`
abbrev join_dots : List Text → Text
join_dots [] = []
join_dots (k ∷ []) = k
join_dots (k ∷ (j ∷ ks)) = k ++ codes "." ++ join_dots (j ∷ ks)

unfoldable pub get_path : List ContextEntry → Text
get_path entries = join_dots (keep non_empty_text (map (λ c. c.key) entries))

-- `getLast`, with the name of its type
abbrev pub last_type : List ContextEntry → Option Text
last_type [] = none
last_type (c ∷ []) = some c.type_name
last_type (c ∷ (d ∷ entries)) = last_type (d ∷ entries)

unfoldable pub get_expected_type : List ContextEntry → Text
get_expected_type entries = or_else (last_type entries) (codes "any")

-- `JSON.stringify_any`, and the names of a function: its `displayName` where that is truthy, and `name`
pub record Stringifier (V : Type 0) : Type 0 where
  pub function_names : V → Option (Option Text × Text)
  pub json : V → Option Text

module _ {V : Type 0} (tools : Stringifier V) where
  abbrev pub stringify_with : Option (Option Text × Text) → V → Option Text
  stringify_with none value = tools.json value
  stringify_with (some (display_name, name)) value = some (or_else display_name name)

  unfoldable pub stringify_any : V → Option Text
  stringify_any value = stringify_with (tools.function_names value) value

  unfoldable pub report_error : V → List ContextEntry → ReporterResult
  unfolding get_path get_expected_type stringify_any
  report_error value entries = record {
    path = get_path entries;
    expected = get_expected_type entries;
    got = stringify_any value;
  }

  -- `defaultReporter`
  unfoldable pub default_reporter : IoDecoded V → List ReporterResult
  unfolding report_error
  default_reporter (decoding_failed errors) = map (λ e. report_error e.value e.context) errors
  default_reporter (decoded_value value) = []

-- `IOError`, with the data of a reporter
pub record IoError (D : Type 0) : Type 0 where
  pub message : Text
  pub data_reported : D
  pub context : Option Text

pub data Validated (V D : Type 0) : Type 0 where
  valid : V → Validated V D
  invalid : IoError D → Validated V D

-- `ValidatorOptions`, with the default reporter put in
pub record ValidatorOptions (V D : Type 0) : Type 0 where
  pub reporter : IoDecoded V → D
  pub context : Option Text

module _ {V D : Type 0} where
  -- `validateError`
  unfoldable pub validate_error : ValidatorOptions V D → IoDecoded V → Validated V D
  validate_error options (decoding_failed errors) = invalid (record {
    message = codes "Validation error";
    data_reported = options.reporter (decoding_failed errors);
    context = options.context;
  })
  validate_error options (decoded_value value) = valid value

  -- `validator$` on one input
  unfoldable pub validator : Option (V → IoDecoded V) → ValidatorOptions V D → V → Validated V D
  unfolding validate_error
  validator none options input = valid input
  validator (some decode) options input = validate_error options (decode input)

-- What a request has for `requestValidator$`: its parts, or the schemas of them.
pub record RequestParts (A : Type 0) : Type 0 where
  pub body : A
  pub params : A
  pub query : A
  pub headers : A

-- the fields of the `HttpError` of a request that is not valid
pub record ValidationFailure (V D : Type 0) : Type 0 where
  pub message : Text
  pub status : ℕ
  pub error_info : D
  pub request : RequestParts V
  pub context : Option Text

pub data Requested (V D : Type 0) : Type 0 where
  request_valid : RequestParts V → Requested V D
  request_invalid : ValidationFailure V D → Requested V D

module _ {V D : Type 0} where
  -- `catchError`
  unfoldable pub validation_failure : RequestParts V → IoError D → Requested V D
  validation_failure req err = request_invalid (record {
    message = err.message;
    status = 400;
    error_info = err.data_reported;
    request = req;
    context = err.context;
  })

  -- `forkJoin` of two streams that emit at once
  unfoldable pub and_then : RequestParts V → Validated V D → (V → Requested V D) → Requested V D
  unfolding validation_failure
  and_then req (valid value) next = next value
  and_then req (invalid err) next = validation_failure req err

  -- the validator of a part, in the context of its name; `unknown$` without a schema
  unfoldable pub validate_part :
      Text → Option (V → IoDecoded V) → ValidatorOptions V D → V → Validated V D
  unfolding validator
  validate_part field decode options input =
      validator decode (record options { context = some (field) }) input

  -- `requestValidator$`; the headers are validated, and stay as they were
  unfoldable pub request_validator :
      RequestParts (Option (V → IoDecoded V))
      → ValidatorOptions V D
      → RequestParts V
      → Requested V D
  unfolding validate_part and_then
  request_validator schema options req =
      and_then req (validate_part (codes "body") schema.body options req.body) (λ body.
        and_then req (validate_part (codes "params") schema.params options req.params) (λ params.
          and_then req (validate_part (codes "query") schema.query options req.query) (λ query.
            and_then req (validate_part (codes "headers") schema.headers options req.headers)
              (λ headers.
                request_valid (record req { body = body; params = params; query = query })))))
