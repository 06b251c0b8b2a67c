-- ===== src/Messaging/EventLogger.antt =====
-- packages/messaging/src/middlewares/messaging.eventLogger.middleware.ts: what is logged for an
-- event. `JSON.stringify` in a template (`undefined` included) and the text of a value in one are
-- parameters.
mod Tests
use marble_js.Base.{
  ◌≡◌, refl, ap, Option, none, some, Bool, true, false, List, [], ◌∷◌, ◌++◌, Text, codes,
  starts_with, or_else, if◌then◌else◌,
}
use marble_js.Core.Errors.{ErrorValue, nullish, plain, with_properties, property, is_event_error}
use marble_js.Core.Events.{Event}
use marble_js.Core.Logger.{LoggerLevel, info, error, LogEntry}
use marble_js.Messaging.Middlewares.{truthy_error_value}
use marble_js.Messaging.Timers.{EventMetadata}
use marble_js.Messaging.Transport.{correlation_field, reply_field}

-- a text where it is truthy
unfoldable pub nonempty_text : Option Text → Option Text
nonempty_text none = none
nonempty_text (some []) = none
nonempty_text (some (c ∷ s)) = some (c ∷ s)

-- `correlationId || 'UNKNOWN_CORRELATION_ID'`
unfoldable pub known_id : Option Text → Text
unfolding nonempty_text
known_id id = or_else (nonempty_text id) (codes "UNKNOWN_CORRELATION_ID")

nonempty_text-known_id :
    (id : Option Text) → nonempty_text (some (known_id id)) ≡ some (known_id id)
unfolding known_id
nonempty_text-known_id none = refl
nonempty_text-known_id (some []) = refl
nonempty_text-known_id (some (c ∷ s)) = refl

abbrev drop_prefix : {A B : Type 0} → List A → List B → List B
drop_prefix [] s = s
drop_prefix (a ∷ t) [] = []
drop_prefix (a ∷ t) (c ∷ s) = drop_prefix t s

-- `s.replace(t, '')`, of the first occurrence
unfoldable pub remove_first : Text → Text → Text
remove_first t [] = []
remove_first t (c ∷ s) =
    let rest = remove_first t s in if starts_with (c ∷ s) t then drop_prefix t (c ∷ s) else c ∷ rest

abbrev event_with_id : Text → Text → Text
event_with_id event_type id = event_type ++ codes ", id: " ++ id

-- `replyTo && correlationId ? ... : correlationId ? ... : type`
unfoldable pub outgoing_text : Text → Option Text → Option Text → Text
outgoing_text event_type reply none = event_type
outgoing_text event_type none (some id) = event_with_id event_type id
outgoing_text event_type (some reply) (some id) =
    event_with_id event_type id ++ codes " and sent to \"" ++ reply ++ codes "\""

unfoldable pub incoming_text : Text → Option Text → Text
incoming_text event_type none = event_type
incoming_text event_type (some id) = event_with_id event_type id

-- How values are printed, and tested.
pub record Printing (V : Type 0) : Type 0 where
  pub truthy : V → Bool
  pub equals : V → Text → Bool
  pub text_of : V → Text
  pub stringify_value : Option V → Text
  pub stringify_error : Option (ErrorValue V) → Text

abbrev invalid_event_text : Text → Text → Text → Text
invalid_event_text event_type id err =
    codes "Received invalid event \""
    ++ event_type
    ++ codes "\""
    ++ id
    ++ codes " with error: "
    ++ err

-- the text with the id when that is truthy, or the other
unfoldable pub validation_text : Text → Option Text → Text → Text
validation_text event_type none err = invalid_event_text event_type [] err
validation_text event_type (some id) err =
    invalid_event_text event_type (codes " (" ++ id ++ codes ")") err

abbrev property_of : {V : Type 0} → Text → Option (ErrorValue V) → Option V
property_of key none = none
property_of key (some err) = property key err

module _ {V : Type 0} (printing : Printing V) where
  -- `error ? JSON.stringify(error.data) : 'UNKNOWN_ERROR'`
  unfoldable pub parsed_error : Option (ErrorValue V) → Text
  unfolding property
  parsed_error none = codes "UNKNOWN_ERROR"
  parsed_error (some err) =
      if truthy_error_value printing.truthy (some err)
      then printing.stringify_value (property (codes "data") err)
      else codes "UNKNOWN_ERROR"

  unfoldable pub truthy_value_of : Option V → Option V
  truthy_value_of none = none
  truthy_value_of (some v) = if printing.truthy v then some v else none

  abbrev message_text : Option V → Text
  message_text none = codes "-"
  message_text (some v) = printing.text_of v

  unfoldable pub generic_text : Text → Option V → Text → Option (ErrorValue V) → Text
  generic_text event_type none message err =
      codes "Unknown error \""
      ++ printing.stringify_error err
      ++ codes "\" for event \""
      ++ event_type
      ++ codes "\""
  generic_text event_type (some name) message err =
      codes "\""
      ++ printing.text_of name
      ++ codes ": "
      ++ message
      ++ codes "\" for event \""
      ++ event_type
      ++ codes "\""

  -- `isEventError(event.error)`
  abbrev is_event_error_of : Option (ErrorValue V) → Bool
  is_event_error_of none = false
  is_event_error_of (some err) = is_event_error printing.equals err

module _ {P V R : Type 0} where
  unfoldable pub get_incoming_message : Event P (ErrorValue V) (EventMetadata R) → Text
  unfolding incoming_text nonempty_text
  get_incoming_message event =
      incoming_text event.event_type (nonempty_text (correlation_field event.metadata))

  unfoldable pub get_outgoing_message : Event P (ErrorValue V) (EventMetadata R) → Text
  unfolding outgoing_text nonempty_text
  get_outgoing_message event =
      outgoing_text event.event_type (nonempty_text (reply_field event.metadata))
        (nonempty_text (correlation_field event.metadata))

  module _ (printing : Printing V) where
    unfoldable pub get_validation_error_message : Event P (ErrorValue V) (EventMetadata R) → Text
    unfolding nonempty_text remove_first parsed_error validation_text known_id
    get_validation_error_message event =
        validation_text (remove_first (codes "_UNHANDLED_ERROR") event.event_type)
          (nonempty_text (some (known_id (correlation_field event.metadata))))
          (parsed_error printing event.error)

    unfoldable pub get_generic_error_message : Event P (ErrorValue V) (EventMetadata R) → Text
    unfolding truthy_value_of generic_text property
    get_generic_error_message event =
        generic_text printing event.event_type
          (truthy_value_of printing (property_of (codes "name") event.error))
          (message_text printing
            (truthy_value_of printing (property_of (codes "message") event.error)))
          event.error

    unfoldable pub get_error_message : Event P (ErrorValue V) (EventMetadata R) → Text
    unfolding get_validation_error_message get_generic_error_message is_event_error
    get_error_message event =
        if is_event_error_of printing event.error
        then get_validation_error_message event
        else get_generic_error_message event

    -- `inputLogger$`, on the channel of the transport layer
    unfoldable pub input_logger : Text → Event P (ErrorValue V) (EventMetadata R) → LogEntry P
    unfolding get_incoming_message
    input_logger channel event = record {
      tag = channel;
      log_type = codes "EVENT_IN";
      message = get_incoming_message event;
      level = info;
      logged = some event.payload;
    }

    -- `outputLogger$`
    unfoldable pub output_logger : Text → Event P (ErrorValue V) (EventMetadata R) → LogEntry P
    unfolding get_error_message get_outgoing_message
    output_logger channel event =
        let failed = truthy_error_value printing.truthy event.error in
        record {
          tag = channel;
          log_type = codes "EVENT_OUT";
          message = if failed then get_error_message event else get_outgoing_message event;
          level = if failed then error else info;
          logged = some event.payload;
        }

    -- `exceptionLogger$`
    unfoldable pub exception_logger : Text → Event P (ErrorValue V) (EventMetadata R) → LogEntry P
    unfolding get_error_message
    exception_logger channel event = record {
      tag = channel;
      log_type = codes "ERROR";
      message = get_error_message event;
      level = error;
      logged = none;
    }

    -- The text without an id is never used: an event without one has `UNKNOWN_CORRELATION_ID`.
    get_validation_error_message-id :
        (event : Event P (ErrorValue V) (EventMetadata R))
        → get_validation_error_message event
          ≡ invalid_event_text
              (remove_first (codes "_UNHANDLED_ERROR") event.event_type)
              (codes " (" ++ known_id (correlation_field event.metadata) ++ codes ")")
              (parsed_error printing event.error)
    unfolding get_validation_error_message validation_text known_id
    get_validation_error_message-id event =
        ap
          (λ id.
            validation_text (remove_first (codes "_UNHANDLED_ERROR") event.event_type) id
              (parsed_error printing event.error))
          (nonempty_text-known_id (correlation_field event.metadata))
