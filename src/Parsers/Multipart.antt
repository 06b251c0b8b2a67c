-- ===== src/Parsers/Multipart.antt =====
-- packages/middleware-multipart/src: multipart.middleware.ts, multipart.util.ts and the parsers of
-- fields and files, over the events that the package `@fastify/busboy` emits for a request, in their
-- order. Handlers of streams are synchronous; what an error leaves in the request is not modelled.
pub mod Fields
pub mod Accepted
use marble_js.Base.{
  ℕ, Option, none, some, Bool, true, false, not, ◌&&◌, ◌||◌, List, [], ◌∷◌, ◌++◌, Text, codes, ◌==◌,
  any, includes, is_some, or_else, Dict, insert, show, length, if◌then◌else◌,
}

-- `File`, where the buffer is the text of its chunks
pub record File (D : Type 0) : Type 0 where
  pub destination : Option D
  pub buffer : Option Text
  pub size : Option ℕ
  pub encoding : Text
  pub mimetype : Text
  pub filename : Text
  pub fieldname : Text

-- `FileIncomingData`, with what its stream carries, and whether it reaches the limit of the size
pub record FileIncomingData : Type 0 where
  pub fieldname : Text
  pub filename : Text
  pub encoding : Text
  pub mimetype : Text
  pub contents : Text
  pub reaches_limit : Bool

-- What a stream handler gives: a destination and perhaps a size, or what it throws.
pub data StreamHandled (D : Type 0) : Type 0 where
  stored : D → Option ℕ → StreamHandled D
  handler_threw : Text → StreamHandled D

pub record ParserOpts (D : Type 0) : Type 0 where
  pub files : Option (List Text)
  pub stream : Option (FileIncomingData → StreamHandled D)
  pub max_file_size : Option ℕ
  pub max_file_count : Option ℕ
  pub max_field_count : Option ℕ

pub record MultipartRequest (F D : Type 0) : Type 0 where
  pub method : Text
  pub content_type : Option Text
  pub body : Option (Dict F)
  pub files : Option (Dict (File D))

pub data BusboyEvent (F : Type 0) : Type 0 where
  field : Text → F → BusboyEvent F
  file : FileIncomingData → BusboyEvent F
  files_limit fields_limit : BusboyEvent F

-- `HttpError`
pub record MultipartError : Type 0 where
  pub message : Text
  pub status : ℕ

pub data MultipartOutcome (F D : Type 0) : Type 0 where
  parsed : MultipartRequest F D → MultipartOutcome F D
  failed : MultipartError → MultipartOutcome F D

-- a limit in a message, `undefined` when there is none
abbrev pub limit_text : Option ℕ → Text
limit_text none = codes "undefined"
limit_text (some n) = show n

unfoldable pub should_parse_fieldname : Option (List Text) → Text → Bool
should_parse_fieldname none fieldname = true
should_parse_fieldname (some files) fieldname = any (λ f. f == fieldname) files

abbrev pub precondition_failed : Text → MultipartError
precondition_failed message = record { message = message; status = 412 }

module _ {F D : Type 0} where
  unfoldable pub should_parse_multipart : MultipartRequest F D → Bool
  should_parse_multipart req =
      any (λ m. m == req.method) (codes "POST" ∷ codes "PUT" ∷ [])
      && includes (or_else req.content_type (codes "")) (codes "multipart/")

  -- `setRequestData`
  unfoldable pub set_request_data :
      FileIncomingData
      → Option D
      → Option Text
      → Option ℕ
      → MultipartRequest F D
      → MultipartRequest F D
  set_request_data incoming destination buffer size req = record req {
    files = some (
        insert incoming.fieldname
          (record {
            destination = destination;
            buffer = buffer;
            size = size;
            encoding = incoming.encoding;
            mimetype = incoming.mimetype;
            filename = incoming.filename;
            fieldname = incoming.fieldname;
          })
          (or_else req.files []));
  }

  -- `parseField` on one event
  unfoldable pub parse_field : Text → F → MultipartRequest F D → MultipartRequest F D
  parse_field fieldname value req = record req {
    body = some (insert fieldname value (or_else req.body []));
  }

  -- what the handler of the options gives, or an error that `parseMultipart` wraps
  unfoldable pub store_handled :
      FileIncomingData → StreamHandled D → MultipartRequest F D → MultipartOutcome F D
  unfolding set_request_data
  store_handled incoming (stored destination size) req =
      parsed (set_request_data incoming (some destination) none size req)
  store_handled incoming (handler_threw message) req =
      failed (record { message = message; status = 500 })

  unfoldable pub store_file :
      Option (FileIncomingData → StreamHandled D)
      → FileIncomingData
      → MultipartRequest F D
      → MultipartOutcome F D
  unfolding set_request_data store_handled
  store_file none incoming req = parsed (
      set_request_data incoming none (some incoming.contents) (some (length incoming.contents)) req)
  store_file (some handler) incoming req = store_handled incoming (handler incoming) req

  -- `parseFile` on one event
  unfoldable pub parse_file :
      ParserOpts D → FileIncomingData → MultipartRequest F D → MultipartOutcome F D
  unfolding should_parse_fieldname store_file
  parse_file opts incoming req =
      if not (should_parse_fieldname opts.files incoming.fieldname)
      then failed (
          precondition_failed
            (codes "File \"" ++ incoming.fieldname ++ codes "\" is not acceptable"))
      else if incoming.reaches_limit
      then failed (
          precondition_failed (
            codes "Reached file size limit for \""
            ++ incoming.fieldname
            ++ codes "\" ["
            ++ limit_text opts.max_file_size
            ++ codes " bytes]"))
      else store_file opts.stream incoming req

  unfoldable pub parse_event :
      ParserOpts D → BusboyEvent F → MultipartRequest F D → MultipartOutcome F D
  unfolding parse_field parse_file
  parse_event opts (field fieldname value) req = parsed (parse_field fieldname value req)
  parse_event opts (file incoming) req = parse_file opts incoming req
  parse_event opts files_limit req = failed (
      precondition_failed
        (codes "Reached max files count limit [" ++ limit_text opts.max_file_count ++ codes "]"))
  parse_event opts fields_limit req = failed (
      precondition_failed
        (codes "Reached max fields count limit [" ++ limit_text opts.max_field_count ++ codes "]"))

  abbrev pub then_parse :
      (MultipartRequest F D → MultipartOutcome F D) → MultipartOutcome F D → MultipartOutcome F D
  then_parse next (parsed req) = next req
  then_parse next (failed error) = failed error

  -- `parseMultipart` on the events before `finish`
  unfoldable pub parse_multipart :
      ParserOpts D → List (BusboyEvent F) → MultipartRequest F D → MultipartOutcome F D
  unfolding parse_event
  parse_multipart opts [] req = parsed req
  parse_multipart opts (event ∷ events) req =
      then_parse (parse_multipart opts events) (parse_event opts event req)

  -- `multipart$` on one request
  unfoldable pub multipart :
      ParserOpts D → List (BusboyEvent F) → MultipartRequest F D → MultipartOutcome F D
  unfolding should_parse_multipart parse_multipart
  multipart opts events req =
      if should_parse_multipart req
      then parse_multipart opts events req
      else failed (precondition_failed (codes "Content-Type must be of type multipart/form-data"))
