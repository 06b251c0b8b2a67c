-- ===== src/Io/Validation/Accepted.antt =====
-- Which requests the validator of packages/middleware-io/src/io.request.middleware.ts accepts.
use marble_js.Base.{◌≡◌, refl, ◌⊎◌, inl, inr, Option, none, some, List, Text, codes}
use marble_js.Io.Validation.{
  IoDecoded, decoding_failed, decoded_value, ValidationError, valid, invalid, ValidatorOptions,
  IoError, validate_part, validate_error, and_then, validation_failure, RequestParts, request_valid,
  request_invalid, request_validator,
}

module _ {V : Type 0} where
  -- A part is what its schema decodes, or itself without a schema.
  abbrev pub IsDecoded : Option (V → IoDecoded V) → V → V → Type 0
  IsDecoded none input value = value ≡ input
  IsDecoded (some decode) input value = decode input ≡ decoded_value value

  abbrev pub IsRejected : Option (V → IoDecoded V) → V → List (ValidationError V) → Type 0
  IsRejected none input errors = ⊥
  IsRejected (some decode) input errors = decode input ≡ decoding_failed errors

  -- A part of a request is rejected, with its name.
  pub data PartRejected (schema : RequestParts (Option (V → IoDecoded V))) (req : RequestParts V)
      (errors : List (ValidationError V)) : Text → Type 0 where
    body_rejected :
        IsRejected schema.body req.body errors → PartRejected schema req errors (codes "body")
    params_rejected :
        IsRejected schema.params req.params errors → PartRejected schema req errors (codes "params")
    query_rejected :
        IsRejected schema.query req.query errors → PartRejected schema req errors (codes "query")
    headers_rejected :
        IsRejected schema.headers req.headers errors
        → PartRejected schema req errors (codes "headers")

module _ {V D : Type 0} (options : ValidatorOptions V D) where
  abbrev pub io_error : Text → List (ValidationError V) → IoError D
  io_error field errors = record {
    message = codes "Validation error";
    data_reported = options.reporter (decoding_failed errors);
    context = some field;
  }

  abbrev PartCase : Text → Option (V → IoDecoded V) → V → Type 0
  PartCase field decode input =
      ((value : V) × (IsDecoded decode input value
          × (validate_part field decode options input ≡ valid value)))
      ⊎ ((errors : List (ValidationError V)) × (IsRejected decode input errors
            × (validate_part field decode options input ≡ invalid (io_error field errors))))

  decoded-cases :
      (field : Text) (decode : V → IoDecoded V) (input : V) (d : IoDecoded V)
      → decode input ≡ d
      → PartCase field (some decode) input
  unfolding validate_part validate_error
  decoded-cases field decode input (decoding_failed errors) h = inr (errors, (h, rw h refl))
  decoded-cases field decode input (decoded_value value) h = inl (value, (h, rw h refl))

  validate_part-cases :
      (field : Text) (decode : Option (V → IoDecoded V)) (input : V) → PartCase field decode input
  unfolding validate_part
  validate_part-cases field none input = inl (input, (refl, refl))
  validate_part-cases field (some decode) input =
      decoded-cases field decode input (decode input) refl

  -- What becomes of a request: it is accepted with its decoded parts, or it is not.
  abbrev pub Outcome : RequestParts (Option (V → IoDecoded V)) → RequestParts V → Type 0
  Outcome schema req =
      ((out : RequestParts V) × ((headers : V) × (IsDecoded schema.body req.body out.body
            × (IsDecoded schema.params req.params out.params
                × (IsDecoded schema.query req.query out.query
                    × (IsDecoded schema.headers req.headers headers
                        × ((out.headers ≡ req.headers)
                            × (request_validator schema options req ≡ request_valid out))))))))
      ⊎ ((field : Text) × ((errors : List (ValidationError V)) × (PartRejected schema req errors
                field
              × (request_validator schema options req
                  ≡ request_invalid (record {
                    message = codes "Validation error";
                    status = 400;
                    error_info = options.reporter (decoding_failed errors);
                    request = req;
                    context = some field;
                  })))))

  -- A request is accepted when each part that has a schema decodes: then its body, parameters and
  -- query are the decoded ones, and its headers are as they were. Otherwise the error has status 400,
  -- and it reports the errors of a part that was rejected, in the context of its name.
  pub request_validator-Outcome :
      (schema : RequestParts (Option (V → IoDecoded V))) (req : RequestParts V) → Outcome schema req
  unfolding request_validator and_then validation_failure
  request_validator-Outcome schema req =
      elim (validate_part-cases (codes "body") schema.body req.body) [
        | inr r ↦ inr (codes "body", (r.0, (body_rejected r.1.0, rw r.1.1 refl)))
        | inl b ↦ elim (validate_part-cases (codes "params") schema.params req.params) [
          | inr r ↦ inr (codes "params", (r.0, (params_rejected r.1.0, rw b.1.1 (rw r.1.1 refl))))
          | inl p ↦ elim (validate_part-cases (codes "query") schema.query req.query) [
            | inr r ↦
                inr (
                  codes "query",
                  (r.0, (query_rejected r.1.0, rw b.1.1 (rw p.1.1 (rw r.1.1 refl)))),
                )
            | inl q ↦ elim (validate_part-cases (codes "headers") schema.headers req.headers) [
              | inr r ↦ inr (
                codes "headers",
                (r.0, (headers_rejected r.1.0, rw b.1.1 (rw p.1.1 (rw q.1.1 (rw r.1.1 refl))))),
              )
              | inl h ↦ inl (
                record req { body = b.0; params = p.0; query = q.0 },
                (
                  h.0,
                  (
                    b.1.0,
                    (
                      p.1.0,
                      (q.1.0, (h.1.0, (refl, rw b.1.1 (rw p.1.1 (rw q.1.1 (rw h.1.1 refl)))))),
                    ),
                  ),
                ),
              )
            ]
          ]
        ]
      ]
