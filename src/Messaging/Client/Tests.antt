-- ===== src/Messaging/Client/Tests.antt =====
-- Remote calls of packages/messaging/src on a listener that answers with the type of the event and
-- whose codec writes the type only.
use marble_js.Base.{
  ◌≡◌, ◌⊎◌, refl, none, some, Bool, true, false, List, [], ◌∷◌, ◌++◌, Option, if◌then◌else◌, Text,
  codes, ◌==◌,
}
use marble_js.Core.Errors.{
  ErrorValue, nullish, plain, with_properties, encode_error, is_named_error,
}
use marble_js.Core.Events.{threw}
use marble_js.Messaging.Client.{
  ClientConfig, call_threw, invalid_error, timeout_error, throw_error, call_local,
  catch_error_event,
}
use marble_js.Messaging.Client.Calls.{just, identified_by, answer_to, call_local-returns}
use marble_js.Messaging.Client.Recovery.{receive-receive_run}
use marble_js.Messaging.Client.Outcomes.{throw_error-encode_error}
use marble_js.Messaging.Client.Unanswered.{call_local-threw}
use marble_js.Messaging.Listener.{
  MsgEvent, MsgCalled, Emission, ListenerConfig, ListenerState, default_error, receive,
}
use marble_js.Messaging.Listener.Survives.{receive_run}
use marble_js.Messaging.Timers.{initial}
use marble_js.Messaging.Transport.{
  TransportMessage, event_decoded, decode_threw, DecodedEvent, LocalConnection,
}

abbrev named : Text → MsgEvent Text Text
named type = record { event_type = type; payload = none; error = none; metadata = none }

abbrev answering : MsgEvent Text Text → MsgCalled Text Text
answering event = just (record event { event_type = codes "DONE" })

abbrev read_event : Text → DecodedEvent Text (ErrorValue Text) (ErrorValue Text)
read_event [] = decode_threw nullish
read_event (c ∷ s) = event_decoded (named (c ∷ s))

abbrev is_full : Text → Bool
is_full [] = false
is_full (c ∷ s) = true

abbrev listener_of : (MsgEvent Text Text → MsgCalled Text Text) → ListenerConfig Text Text
listener_of effects = record {
  middlewares = just;
  effects = effects;
  output = just;
  error_effect = λ err. just (default_error err);
  encode = λ type payload error. type;
  decode = read_event;
  truthy = is_full;
  payload_access = record { payload_error = λ payload. none; set_error = λ error payload. payload };
  uuid = λ n. codes "fresh";
  origin_channel = codes "bus";
  expects_ack = false;
}

abbrev client : ClientConfig Text Text
client = record {
  encode_event = λ event. event.event_type;
  decode = read_event;
  truthy = is_full;
  equals = λ v t. v == t;
  stringify = λ error. codes "{}";
  timeout = none;
}

abbrev bus : LocalConnection
bus = record { channel = codes "bus"; rpc_subject = []; msg_subject = [] }

abbrev opened_state : ListenerState
opened_state = record {
  timers = initial;
  sent = [];
  uuids = 0;
  is_closed = false;
  is_incoming_open = true;
  is_outgoing_open = true;
  is_error_open = true;
}

call_local-returns_example :
    call_local client (listener_of answering) (codes "id") (named (codes "DO")) bus opened_state
    ≡ catch_error_event client (named (codes "DONE"))
unfolding ◌==◌ marble_js.Messaging.Middlewares.encode_output_error
    marble_js.Messaging.Middlewares.has_error
call_local-returns_example =
    call_local-returns client (listener_of answering) (codes "id") (named (codes "DO"))
      (named (codes "DO")) _ (named (codes "DONE")) bus opened_state ((λ e. refl), (λ e. refl))
      (refl, (refl, refl)) refl tt refl refl refl refl refl

abbrev throwing : MsgEvent Text Text → MsgCalled Text Text
throwing event = threw (plain (codes "no"))

call_local-threw_example :
    call_local client (listener_of throwing) (codes "id") (named (codes "DO")) bus opened_state
    ≡ call_threw timeout_error
call_local-threw_example =
    call_local-threw client (listener_of throwing) (codes "id") (named (codes "DO"))
      (named (codes "DO")) (plain (codes "no")) bus opened_state ((λ e. refl), (λ e. refl))
      (λ err. refl) (refl, (refl, refl)) tt refl refl

abbrev thrown : ErrorValue Text
thrown =
    with_properties ((codes "message", codes "m") ∷ (codes "stack", codes "s") ∷ [])
      (some (codes "Error"))

throw_error-encode_error_example :
    (throw_error client (named (codes "E")) (encode_error is_full thrown)
      ≡ throw_error client (named (codes "E")) thrown)
    ⊎ ((is_named_error client.truthy thrown ≡ false)
        × (throw_error client (named (codes "E")) (encode_error is_full thrown)
            ≡ call_threw (invalid_error (client.stringify (encode_error is_full thrown)))))
throw_error-encode_error_example =
    throw_error-encode_error client is_full (named (codes "E")) thrown

abbrev message : Text → TransportMessage
message text = record {
  data_text = text;
  reply_to = some (codes "r");
  correlation_id = some (codes "c");
}

abbrev done : Text → MsgEvent Text Text
done id = record {
  event_type = codes "DONE";
  payload = none;
  error = none;
  metadata = some (record {
    raw = some (record { data_text = codes "DO"; reply_to = some id; correlation_id = some id });
    correlation_id = some id;
    reply_to = some id;
  });
}

-- the effects throw on one type of event, and answer any other
abbrev partly_throwing : MsgEvent Text Text → MsgCalled Text Text
partly_throwing event = if event.event_type == codes "BAD" then throwing event else answering event

receive-receive_run_example :
    (more : List Emission) × (raw : Option TransportMessage) × ((receive
        (listener_of partly_throwing)
        (identified_by (listener_of partly_throwing) (codes "id") (message (codes "DO")))
        (receive_run
          (listener_of partly_throwing)
          (message [] ∷ message (codes "BAD") ∷ [])
          opened_state)).sent
      ≡ []
        ++ more
        ++ record {
          channel = codes "id";
          message = answer_to (listener_of partly_throwing) (codes "id") (done (codes "id"));
          raw = raw;
        }
          ∷ [])
unfolding ◌==◌
receive-receive_run_example =
    receive-receive_run (listener_of partly_throwing) (message [] ∷ message (codes "BAD") ∷ [])
      opened_state (codes "id") (message (codes "DO")) (named (codes "DO")) (done (codes "id"))
      (refl, (refl, refl)) (λ e. refl) refl refl refl refl refl
