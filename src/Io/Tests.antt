-- ===== src/Io/Tests.antt =====
-- JSON schemas of packages/middleware-io/src/io.json-schema.ts for concrete types, with numbers for
-- literals; 0 is falsy.
use marble_js.Base.{
  ℕ, ◌+◌, ◌%◌, length, none, Option, if◌then◌else◌, ◌≡◌, refl, some, false, not, [], ◌∷◌, codes,
  ◌==◌, keep, eqb,
}
use marble_js.Io.{
  IoType, IoProps, number_type, string_type, undefined_type, union_type, exact_type,
  refinement_type, interface_type, no_types, add_type, no_props, add_prop, type_schema, any_of,
  object_schema, add_schema_prop, no_schema_props, no_schemas, add_schema, convert, required_keys,
  io_type_to_json_schema, is_reduced, remove_undefined_values, unrequire, filter_tree,
}
use marble_js.Io.Validation.{
  IoDecoded, decoding_failed, decoded_value, ValidatorOptions, RequestParts, get_path,
}
use marble_js.Io.Validation.Accepted.{Outcome, request_validator-Outcome}
use marble_js.Io.Required.{is_optional_key, required_keys-keep}

abbrev optional_string : IoType ℕ ℕ
optional_string = union_type (add_type string_type (add_type undefined_type no_types))

abbrev props : IoProps ℕ ℕ
props =
    add_prop (codes "id") (refinement_type (codes "Int") number_type)
      (add_prop (codes "nick") optional_string no_props)

io_type_to_json_schema_tests :
    io_type_to_json_schema
      (λ n. not (eqb n 0))
      (λ j. j)
      (some (exact_type [] (interface_type props)))
    ≡ some (
        object_schema
          (add_schema_prop (codes "id") (type_schema (codes "integer")) (
            add_schema_prop
              (codes "nick")
              (any_of (add_schema (type_schema (codes "string")) no_schemas))
              no_schema_props))
          (codes "id" ∷ [])
          false)
unfolding io_type_to_json_schema convert is_reduced remove_undefined_values unrequire filter_tree
    ◌==◌
io_type_to_json_schema_tests = refl

required_keys-keep_example :
    required_keys props (codes "id" ∷ codes "nick" ∷ [])
    ≡ keep (λ k. not (is_optional_key props k)) (codes "id" ∷ codes "nick" ∷ [])
required_keys-keep_example = required_keys-keep props (codes "id" ∷ codes "nick" ∷ [])

-- even numbers are decoded to the next one
abbrev decode_even : ℕ → IoDecoded ℕ
decode_even n =
    if eqb (n % 2) 0
    then decoded_value (n + 1)
    else decoding_failed (record { value = n; context = [] } ∷ [])

abbrev error_count : IoDecoded ℕ → ℕ
error_count (decoding_failed errors) = length errors
error_count (decoded_value value) = 0

abbrev counting : ValidatorOptions ℕ ℕ
counting = record { reporter = error_count; context = none }

abbrev even_schema : RequestParts (Option (ℕ → IoDecoded ℕ))
even_schema = record {
  body = some decode_even;
  params = none;
  query = some decode_even;
  headers = none;
}

request_validator-Outcome_example :
    Outcome counting even_schema (record { body = 2; params = 5; query = 3; headers = 7 })
request_validator-Outcome_example =
    request_validator-Outcome counting even_schema
      (record { body = 2; params = 5; query = 3; headers = 7 })

get_path_nested :
    get_path (
      record { key = codes ""; type_name = codes "User" }
      ∷ record { key = codes "address"; type_name = codes "Address" }
      ∷ record { key = codes "zip"; type_name = codes "string" }
      ∷ [])
    ≡ codes "address.zip"
unfolding get_path
get_path_nested = refl
