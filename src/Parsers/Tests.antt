-- ===== src/Parsers/Tests.antt =====
-- The parsers of request bodies on concrete values.
use marble_js.Base.{
  ◌≡◌, refl, none, some, true, false, List, [], ◌∷◌, Text, codes, ◌==◌, includes, starts_with,
  insert, or_option, All,
}
use marble_js.Parsers.Multipart.{
  BusboyEvent, field, file, ParserOpts, MultipartRequest, parsed, multipart, should_parse_multipart,
  parse_multipart, parse_event, parse_file, parse_field, store_file, set_request_data,
  should_parse_fieldname,
}
use marble_js.Parsers.Multipart.Accepted.{is_accepted, multipart-is_accepted}
use marble_js.Parsers.Multipart.Fields.{looked_up, last_field, multipart-last_field}

abbrev upload : MultipartRequest Text Text
upload = record {
  method = codes "PUT";
  content_type = some (codes "multipart/x");
  body = none;
  files = none;
}

abbrev options : ParserOpts Text
options = record {
  files = some (codes "f" ∷ []);
  stream = none;
  max_file_size = none;
  max_file_count = none;
  max_field_count = none;
}

abbrev events : List (BusboyEvent Text)
events =
    field (codes "a") (codes "1")
    ∷ file (record {
      fieldname = codes "f";
      filename = codes "n";
      encoding = codes "7bit";
      mimetype = codes "text/plain";
      contents = codes "hi";
      reaches_limit = false;
    })
    ∷ field (codes "a") (codes "2")
    ∷ []

abbrev uploaded : MultipartRequest Text Text
uploaded = record upload {
  body = some ((codes "a", codes "2") ∷ []);
  files = some (
      (
        codes "f",
        record {
          destination = none;
          buffer = some (codes "hi");
          size = some 2;
          encoding = codes "7bit";
          mimetype = codes "text/plain";
          filename = codes "n";
          fieldname = codes "f";
        },
      )
      ∷ []);
}

multipart_tests : multipart options events upload ≡ parsed uploaded
unfolding multipart parse_multipart parse_event parse_file parse_field store_file set_request_data
    should_parse_fieldname should_parse_multipart insert ◌==◌ includes starts_with
multipart_tests = refl

multipart-is_accepted_example :
    (should_parse_multipart upload ≡ true) × All (λ event. is_accepted options event ≡ true) events
multipart-is_accepted_example =
    multipart-is_accepted options events upload (rw multipart_tests refl)

multipart-last_field_example :
    looked_up (codes "a") uploaded.body
    ≡ or_option (last_field (codes "a") events) (looked_up (codes "a") upload.body)
multipart-last_field_example =
    multipart-last_field options (codes "a") events upload uploaded multipart_tests
