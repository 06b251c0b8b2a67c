-- ===== src/Parsers/Multipart/Fields.antt =====
-- What packages/middleware-multipart/src puts into the body and the files of a request.
use marble_js.Base.{
  ◌≡◌, refl, sym, ap, ◌∙◌, Option, none, some, Bool, true, false, not, List, [], ◌∷◌, Text, ◌==◌,
  Dict, lookup, lookup-insert, or_else, or_option, if◌then◌else◌, arith,
}
use marble_js.Parsers.Multipart.{
  BusboyEvent, field, file, files_limit, fields_limit, FileIncomingData, StreamHandled, stored,
  handler_threw, ParserOpts, MultipartRequest, MultipartOutcome, parsed, failed, set_request_data,
  parse_field, should_parse_fieldname, store_file, store_handled, parse_file, parse_event,
  then_parse, parse_multipart, multipart, should_parse_multipart,
}
use marble_js.Parsers.Multipart.Accepted.{Gives, Gives-parsed}

abbrev pub looked_up : {V : Type 0} → Text → Option (Dict V) → Option V
looked_up name d = lookup name (or_else d [])

-- The value of the last field with a name.
abbrev pub last_field : {F : Type 0} → Text → List (BusboyEvent F) → Option F
last_field name [] = none
last_field name (field fieldname value ∷ events) =
    or_option (last_field name events) (if fieldname == name then some value else none)
last_field name (file incoming ∷ events) = last_field name events
last_field name (files_limit ∷ events) = last_field name events
last_field name (fields_limit ∷ events) = last_field name events

or_option_assoc :
    {V : Type 0} (a b c : Option V) → or_option (or_option a b) c ≡ or_option a (or_option b c)
or_option_assoc none b c = refl
or_option_assoc (some v) b c = refl

module _ {F D : Type 0} where
  Gives-if :
      (P : MultipartRequest F D → Type 0) (b : Bool) (x y : MultipartOutcome F D)
      → Gives P x
      → Gives P y
      → Gives P (if b then x else y)
  Gives-if P true x y h k = h
  Gives-if P false x y h k = k

  abbrev pub SameBody : MultipartRequest F D → MultipartOutcome F D → Type 0
  SameBody before outcome = Gives (λ req. req.body ≡ before.body) outcome

  store_handled-body :
      (incoming : FileIncomingData) (handled : StreamHandled D) (req : MultipartRequest F D)
      → SameBody req (store_handled incoming handled req)
  unfolding store_handled set_request_data
  store_handled-body incoming (stored destination size) req = refl
  store_handled-body incoming (handler_threw message) req = tt

  store_file-body :
      (stream : Option (FileIncomingData → StreamHandled D)) (incoming : FileIncomingData)
      (req : MultipartRequest F D)
      → SameBody req (store_file stream incoming req)
  unfolding store_file set_request_data
  store_file-body none incoming req = refl
  store_file-body (some handler) incoming req = store_handled-body incoming (handler incoming) req

  parse_file-body :
      (opts : ParserOpts D) (incoming : FileIncomingData) (req : MultipartRequest F D)
      → SameBody req (parse_file opts incoming req)
  unfolding parse_file
  parse_file-body opts incoming req =
      Gives-if (λ r. r.body ≡ req.body) (not (should_parse_fieldname opts.files incoming.fieldname))
        _ _ tt
        (Gives-if (λ r. r.body ≡ req.body) incoming.reaches_limit _ _ tt
          (store_file-body opts.stream incoming req))

  then_parse-body :
      (P : MultipartRequest F D → Type 0) (next : MultipartRequest F D → MultipartOutcome F D)
      (req : MultipartRequest F D) (outcome : MultipartOutcome F D)
      → SameBody req outcome
      → ((r : MultipartRequest F D) → r.body ≡ req.body → Gives P (next r))
      → Gives P (then_parse next outcome)
  then_parse-body P next req (parsed r) same h = h r same
  then_parse-body P next req (failed error) same h = tt

  parse_field-body :
      (name fieldname : Text) (value : F) (req : MultipartRequest F D)
      → looked_up name (parse_field fieldname value req).body
        ≡ or_option (if fieldname == name then some value else none) (looked_up name req.body)
  unfolding parse_field
  parse_field-body name fieldname value req =
      lookup-insert fieldname name value (or_else req.body []) ∙ ground arith

  -- the value that a body has for a name after some events
  abbrev pub HasLast :
      Text → List (BusboyEvent F) → MultipartRequest F D → MultipartRequest F D → Type 0
  HasLast name events before after =
      looked_up name after.body ≡ or_option (last_field name events) (looked_up name before.body)

  Gives-field :
      (name fieldname : Text) (value : F) (events : List (BusboyEvent F))
      (req : MultipartRequest F D) (outcome : MultipartOutcome F D)
      → Gives (HasLast name events (parse_field fieldname value req)) outcome
      → Gives (HasLast name (field fieldname value ∷ events) req) outcome
  Gives-field name fieldname value events req (failed error) h = tt
  Gives-field name fieldname value events req (parsed r) h =
      h
      ∙ ap (or_option (last_field name events)) (parse_field-body name fieldname value req)
      ∙ sym (or_option_assoc (last_field name events) _ _)

  Gives-before :
      (name : Text) (events : List (BusboyEvent F)) (req next : MultipartRequest F D)
      → next.body ≡ req.body
      → (outcome : MultipartOutcome F D) → Gives (HasLast name events next) outcome
      → Gives (HasLast name events req) outcome
  Gives-before name events req next same (failed error) h = tt
  Gives-before name events req next same (parsed r) h =
      h ∙ ap (λ b. or_option (last_field name events) (looked_up name b)) same

  parse_multipart-fields :
      (opts : ParserOpts D) (name : Text) (events : List (BusboyEvent F))
      (req : MultipartRequest F D)
      → Gives (HasLast name events req) (parse_multipart opts events req)
  unfolding parse_multipart parse_event
  parse_multipart-fields opts name [] req = refl
  parse_multipart-fields opts name (field fieldname value ∷ events) req =
      Gives-field name fieldname value events req _
        (parse_multipart-fields opts name events (parse_field fieldname value req))
  parse_multipart-fields opts name (file incoming ∷ events) req =
      then_parse-body (HasLast name events req) (parse_multipart opts events) req
        (parse_file opts incoming req) (parse_file-body opts incoming req)
        (λ r same.
          Gives-before name events req r same _ (parse_multipart-fields opts name events r))
  parse_multipart-fields opts name (files_limit ∷ events) req = tt
  parse_multipart-fields opts name (fields_limit ∷ events) req = tt

  -- In the body of a request that the middleware lets through, a name has the value of the last of
  -- its fields, and without one what it had before; the files leave the body as it is.
  pub multipart-last_field :
      (opts : ParserOpts D) (name : Text) (events : List (BusboyEvent F))
      (req after : MultipartRequest F D)
      → multipart opts events req ≡ parsed after
      → looked_up name after.body ≡ or_option (last_field name events) (looked_up name req.body)
  unfolding multipart
  multipart-last_field opts name events req after e =
      Gives-parsed (HasLast name events req) _ after e (
        Gives-if (HasLast name events req) (should_parse_multipart req) _ _
          (parse_multipart-fields opts name events req) tt)
