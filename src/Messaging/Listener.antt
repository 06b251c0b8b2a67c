-- ===== src/Messaging/Listener.antt =====
-- packages/messaging/src/server/messaging.server.listener.ts: the streams of a listener whose
-- middlewares, effects, output and error effects are synchronous, as a step that handles one
-- message. An error of the incoming or of the outgoing stream ends its subscription, and
-- `processError` subscribes it again; the error stream is not. Logging is not modelled.
pub mod Survives
use marble_js.Base.{
  ◌≡◌, ℕ, ◌+◌, Option, none, some, Bool, true, false, List, [], ◌∷◌, ◌++◌, Text, codes, or_else,
  map, if◌then◌else◌,
}
use marble_js.Core.Errors.{ErrorValue, with_properties, property}
use marble_js.Core.Events.{Event, Emitted, Called, threw, returned}
use marble_js.Messaging.Middlewares.{apply_id, route_output, encode_output_error, PayloadError}
use marble_js.Messaging.Timers.{EventMetadata, MetaEvent, TimerState, reject_unhandled}
use marble_js.Messaging.Transport.{
  TransportMessage, DecodedEvent, decode_message, raw_field, correlation_field, reply_field,
}

abbrev pub MsgEvent : Type 0 → Type 0 → Type 0
MsgEvent P V = Event P (ErrorValue V) (EventMetadata TransportMessage)

abbrev pub MsgEmitted : Type 0 → Type 0 → Type 0
MsgEmitted P V = Emitted P (ErrorValue V) (EventMetadata TransportMessage)

abbrev pub MsgCalled : Type 0 → Type 0 → Type 0
MsgCalled P V = Called P (ErrorValue V) (EventMetadata TransportMessage)

-- A call of `connection.emitMessage`.
pub record Emission : Type 0 where
  pub channel : Text
  pub message : TransportMessage
  pub raw : Option TransportMessage

-- `MessagingListenerConfig`, with the transformer, `createUuid` (by the number of the call), the
-- channel of the transport layer, and whether it is one of AMQP that expects acknowledgements. The
-- middlewares and the effects are the combined ones, on one event.
pub record ListenerConfig (P V : Type 0) : Type 0 where
  pub middlewares : MsgEvent P V → MsgCalled P V
  pub effects : MsgEvent P V → MsgCalled P V
  pub output : MsgEvent P V → MsgCalled P V
  pub error_effect : ErrorValue V → MsgCalled P V
  pub encode : Text → Option P → Option (ErrorValue V) → Text
  pub decode : Text → DecodedEvent P (ErrorValue V) (ErrorValue V)
  pub truthy : V → Bool
  pub payload_access : PayloadError P V
  pub uuid : ℕ → Text
  pub origin_channel : Text
  pub expects_ack : Bool

-- What a listener has done for a connection, and which of its three streams are subscribed.
pub record ListenerState : Type 0 where
  pub timers : TimerState TransportMessage
  pub sent : List Emission
  pub uuids : ℕ
  pub is_closed : Bool
  pub is_incoming_open : Bool
  pub is_outgoing_open : Bool
  pub is_error_open : Bool

-- The streams that `processError` subscribes again.
pub data ListenerStream : Type 0 where
  incoming outgoing : ListenerStream

abbrev pub set_open : ListenerStream → Bool → ListenerState → ListenerState
set_open incoming is_open st = record st { is_incoming_open = is_open }
set_open outgoing is_open st = record st { is_outgoing_open = is_open }

-- the properties `name` and `message` of the default error, when they are defined
abbrev pub described : {V : Type 0} → Text → Option V → List (Text × V)
described key none = []
described key (some v) = (key, v) ∷ []

-- `defaultError$`
unfoldable pub default_error : {P V : Type 0} → ErrorValue V → MsgEvent P V
unfolding property
default_error error = record {
  event_type = codes "UNHANDLED_ERROR";
  payload = none;
  error = some (
      with_properties
        (described (codes "name") (property (codes "name") error)
          ++ described (codes "message") (property (codes "message") error))
        none);
  metadata = none;
}

-- what a synchronous stream emits before it fails
abbrev pub emitted_of : {P V : Type 0} → MsgCalled P V → MsgEmitted P V
emitted_of (threw err) = record { events = []; failure = some err }
emitted_of (returned out) = out

abbrev pub meta_event : {P V : Type 0} → MsgEvent P V → MetaEvent TransportMessage
meta_event event = record { event_type = event.event_type; metadata = event.metadata }

module _ {P V : Type 0} (config : ListenerConfig P V) where
  unfoldable pub send : MsgEvent P V → Emission
  send event = record {
    channel = or_else (reply_field event.metadata) [];
    message = record {
      data_text = config.encode event.event_type event.payload event.error;
      reply_to = reply_field event.metadata;
      correlation_id = correlation_field event.metadata;
    };
    raw = raw_field event.metadata;
  }

  unfoldable pub send_all : List (MsgEvent P V) → ListenerState → ListenerState
  unfolding send
  send_all [] st = st
  send_all (event ∷ events) st = send_all events (record st { sent = st.sent ++ send event ∷ [] })

  -- the failure of the error stream itself is only logged
  abbrev pub close_errors : Option (ErrorValue V) → ListenerState → ListenerState
  close_errors none st = st
  close_errors (some err) st = record st { is_error_open = false }

  unfoldable pub send_errors : MsgEmitted P V → ListenerState → ListenerState
  unfolding send_all
  send_errors out st = close_errors out.failure (send_all out.events st)

  -- the subscription of `errorEvent$`, while there is one
  unfoldable pub handle_error_if : Bool → ErrorValue V → ListenerState → ListenerState
  unfolding send_errors
  handle_error_if true err st = send_errors (emitted_of (config.error_effect err)) st
  handle_error_if false err st = st

  -- `errorSubject.next(error)`
  unfoldable pub next_error : ErrorValue V → ListenerState → ListenerState
  unfolding handle_error_if
  next_error err st = handle_error_if st.is_error_open err st

  -- `processError`: `catchError` passes on the error and subscribes the stream again
  unfoldable pub process_error : ListenerStream → ErrorValue V → ListenerState → ListenerState
  unfolding next_error
  process_error stream err st = set_open stream true (next_error err st)

  -- the end of what a stream emits at once: an error ends its subscription
  unfoldable pub process_failure :
      ListenerStream → Option (ErrorValue V) → ListenerState → ListenerState
  unfolding process_error
  process_failure stream none st = st
  process_failure stream (some err) st = process_error stream err (set_open stream false st)

  -- an id is drawn only when the event has none
  abbrev pub drawn : Option Text → ListenerState → ListenerState
  drawn none st = record st { uuids = st.uuids + 1 }
  drawn (some id) st = st

  -- `outputRouter$`, `output$` and `outputErrorEncoder$` on one event
  unfoldable pub output_of : Text → MsgEvent P V → MsgEmitted P V
  unfolding route_output encode_output_error
  output_of uuid event =
      let out = emitted_of (config.output (route_output config.origin_channel uuid event)) in
      record {
        events = map (encode_output_error config.truthy config.payload_access) out.events;
        failure = out.failure;
      }

  -- the state after what they emit is sent, and their failure
  unfoldable pub send_output : MsgEvent P V → ListenerState → ListenerState × Option (ErrorValue V)
  unfolding output_of send_all
  send_output event st =
      let out = output_of (config.uuid st.uuids) event in
      (send_all out.events (drawn (correlation_field event.metadata) st), out.failure)

  -- the rest of what the outgoing stream emits at once, unless it has failed
  unfoldable pub unless_failed :
      Option (ErrorValue V) → (ListenerState → ListenerState) → ListenerState → ListenerState
  unfolding process_failure
  unless_failed none rest st = rest st
  unless_failed (some err) rest st = process_failure outgoing (some err) st

  -- the events that the effects emit, one after the other, and their failure
  unfoldable pub send_outputs :
      List (MsgEvent P V) → Option (ErrorValue V) → ListenerState → ListenerState
  unfolding send_output process_failure unless_failed
  send_outputs [] failure st = process_failure outgoing failure st
  send_outputs (event ∷ events) failure st =
      let next = send_output event st in unless_failed next.1 (send_outputs events failure) next.0

  -- the stream `outgoingEvent$`, while it is subscribed
  unfoldable pub handle_event_if : Bool → MsgEvent P V → ListenerState → ListenerState
  unfolding send_outputs
  handle_event_if false event st = st
  handle_event_if true event st =
      let out = emitted_of (config.effects event) in send_outputs out.events out.failure st

  -- `eventSubject.next(event)`
  unfoldable pub handle_event : MsgEvent P V → ListenerState → ListenerState
  unfolding handle_event_if
  handle_event event st = handle_event_if st.is_outgoing_open event st

  unfoldable pub handle_events : List (MsgEvent P V) → ListenerState → ListenerState
  unfolding handle_event
  handle_events [] st = st
  handle_events (event ∷ events) st = handle_events events (handle_event event st)

  -- what decoding passes to `errorSubject`
  unfoldable pub next_errors : List (ErrorValue V) → ListenerState → ListenerState
  unfolding next_error
  next_errors [] st = st
  next_errors (err ∷ errs) st = next_errors errs (next_error err st)

  -- `idApplier$` and `rejectUnhandled$`
  unfoldable pub apply_input : MsgEvent P V → ListenerState → MsgEvent P V × ListenerState
  unfolding apply_id
  apply_input event st =
      let identified = apply_id (config.uuid st.uuids) event in
      let counted = drawn (correlation_field event.metadata) st in
      (
        identified,
        record counted {
          timers = reject_unhandled config.expects_ack (meta_event identified) counted.timers;
        },
      )

  unfoldable pub handle_input : MsgEvent P V → ListenerState → ListenerState
  unfolding handle_events process_failure
  handle_input event st =
      let out = emitted_of (config.middlewares event) in
      process_failure incoming out.failure (handle_events out.events st)

  -- `incomingEvent$`: the decoded message, through the middlewares, to the effects
  unfoldable pub handle_message : TransportMessage → ListenerState → ListenerState
  unfolding decode_message next_errors apply_input handle_input
  handle_message msg st =
      let decoded = decode_message config.decode msg in
      let input = apply_input decoded.0 (next_errors decoded.1 st) in handle_input input.0 input.1

  -- `takeUntil(connection.close$)`, and the subscription of `incomingEvent$`
  unfoldable pub receive_if : Bool → Bool → TransportMessage → ListenerState → ListenerState
  unfolding handle_message
  receive_if true is_open msg st = st
  receive_if false false msg st = st
  receive_if false true msg st = handle_message msg st

  unfoldable pub receive : TransportMessage → ListenerState → ListenerState
  unfolding receive_if
  receive msg st = receive_if st.is_closed st.is_incoming_open msg st

  abbrev pub close : ListenerState → ListenerState
  close st = record st { is_closed = true }

-- A listener that goes on: its connection is not closed, and both streams are subscribed.
abbrev pub IsOpen : ListenerState → Type 0
IsOpen st = (st.is_closed ≡ false) × ((st.is_incoming_open ≡ true) × (st.is_outgoing_open ≡ true))
