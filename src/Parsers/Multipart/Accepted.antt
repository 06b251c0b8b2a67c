-- ===== src/Parsers/Multipart/Accepted.antt =====
-- Which requests packages/middleware-multipart/src lets through.
use marble_js.Base.{
  ◌≡◌, refl, inl, inr, Bool, true, false, not, ◌&&◌, List, [], ◌∷◌, All, Bool-cases,
}
use marble_js.Parsers.Multipart.{
  BusboyEvent, field, file, files_limit, fields_limit, FileIncomingData, ParserOpts,
  MultipartRequest, MultipartOutcome, parsed, failed, should_parse_fieldname,
  should_parse_multipart, parse_file, parse_event, then_parse, parse_multipart, multipart,
}

module _ {F D : Type 0} where
  -- an outcome with a request that has a property, or an error
  abbrev pub Gives : (MultipartRequest F D → Type 0) → MultipartOutcome F D → Type 0
  Gives P (parsed req) = P req
  Gives P (failed error) = Unit

  pub Gives-parsed :
      (P : MultipartRequest F D → Type 0) (outcome : MultipartOutcome F D)
      (req : MultipartRequest F D)
      → outcome ≡ parsed req
      → Gives P outcome
      → P req
  Gives-parsed P outcome req e h = rw e at h

unfoldable pub is_accepted_file : {D : Type 0} → ParserOpts D → FileIncomingData → Bool
unfolding should_parse_fieldname
is_accepted_file opts incoming =
    should_parse_fieldname opts.files incoming.fieldname && not incoming.reaches_limit

-- What a request may have without being refused.
unfoldable pub is_accepted : {F D : Type 0} → ParserOpts D → BusboyEvent F → Bool
unfolding is_accepted_file
is_accepted opts (field fieldname value) = true
is_accepted opts (file incoming) = is_accepted_file opts incoming
is_accepted opts files_limit = false
is_accepted opts fields_limit = false

abbrev pub is_parsed : {F D : Type 0} → MultipartOutcome F D → Bool
is_parsed (parsed req) = true
is_parsed (failed error) = false

module _ {F D : Type 0} (opts : ParserOpts D) where
  is_parsed-then_parse :
      (next : MultipartRequest F D → MultipartOutcome F D) (outcome : MultipartOutcome F D)
      → is_parsed (then_parse next outcome) ≡ true
      → (is_parsed outcome ≡ true) × (req : MultipartRequest F D) × (is_parsed (next req) ≡ true)
  is_parsed-then_parse next (parsed req) h = (refl, req, h)
  is_parsed-then_parse next (failed error) h = cc

  parse_file-is_accepted :
      (incoming : FileIncomingData) (req : MultipartRequest F D)
      → is_parsed (parse_file opts incoming req) ≡ true
      → is_accepted_file opts incoming ≡ true
  unfolding parse_file is_accepted_file
  parse_file-is_accepted incoming req h =
      elim (Bool-cases (should_parse_fieldname opts.files incoming.fieldname)) [
        | inr other ↦ let no : false ≡ true = rw other at h in cc
        | inl is ↦ elim (Bool-cases incoming.reaches_limit) [
          | inl over ↦ let no : false ≡ true = rw (is, over) at h in cc
          | inr within ↦ rw is (rw within refl)
        ]
      ]

  parse_event-is_accepted :
      (event : BusboyEvent F) (req : MultipartRequest F D)
      → is_parsed (parse_event opts event req) ≡ true
      → is_accepted opts event ≡ true
  unfolding parse_event is_accepted
  parse_event-is_accepted (field fieldname value) req h = refl
  parse_event-is_accepted (file incoming) req h = parse_file-is_accepted incoming req h
  parse_event-is_accepted files_limit req h = h
  parse_event-is_accepted fields_limit req h = h

  parse_multipart-is_accepted :
      (events : List (BusboyEvent F)) (req : MultipartRequest F D)
      → is_parsed (parse_multipart opts events req) ≡ true
      → All (λ event. is_accepted opts event ≡ true) events
  unfolding parse_multipart
  parse_multipart-is_accepted [] req h = tt
  parse_multipart-is_accepted (event ∷ events) req h =
      let both =
        is_parsed-then_parse (parse_multipart opts events) (parse_event opts event req) h in
      (parse_event-is_accepted event req both.0, parse_multipart-is_accepted events both.1 both.2)

  -- A request that the middleware lets through is a POST or a PUT of a multipart content type, every
  -- file of it has a field name that the options accept and stays within the size, and the parser
  -- gave no event that the limit of the files or of the fields was reached.
  pub multipart-is_accepted :
      (events : List (BusboyEvent F)) (req : MultipartRequest F D)
      → is_parsed (multipart opts events req) ≡ true
      → (should_parse_multipart req ≡ true) × All (λ event. is_accepted opts event ≡ true) events
  unfolding multipart
  multipart-is_accepted events req h = elim (Bool-cases (should_parse_multipart req)) [
    | inl is ↦ (is, parse_multipart-is_accepted events req (rw is at h))
    | inr other ↦ let no : false ≡ true = rw other at h in cc
  ]
