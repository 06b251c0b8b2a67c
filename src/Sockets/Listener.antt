-- ===== src/Sockets/Listener.antt =====
-- packages/websockets/src/server/websocket.server.listener.ts and error/websocket.error.effect.ts: the
-- streams of one client, whose middlewares, effects, output and error effects are synchronous, as a
-- step that handles one message. Every stream that fails is subscribed again. Logging is not
-- modelled.
pub mod Metadata
use marble_js.Base.{
  Option, none, some, Bool, true, false, List, [], ◌∷◌, ◌++◌, Text, codes, map, or_else,
  if◌then◌else◌,
}
use marble_js.Core.Errors.{ErrorValue, nullish, plain, with_properties, property, is_event_error}
use marble_js.Core.Events.{Event, Emitted, Called, threw, returned}

-- the metadata that the listener gives an event
pub record SocketMetadata : Type 0 where
  pub reply_to : Text
  pub correlation_id : Text

abbrev pub WsEvent : Type 0 → Type 0 → Type 0
WsEvent P V = Event P (ErrorValue V) SocketMetadata

abbrev pub WsCalled : Type 0 → Type 0 → Type 0
WsCalled P V = Called P (ErrorValue V) SocketMetadata

-- What `eventTransformer.decode` gives.
pub data WsDecoded (P V : Type 0) : Type 0 where
  ws_decoded : WsEvent P V → WsDecoded P V
  ws_undecodable : ErrorValue V → WsDecoded P V

-- `WebSocketListenerConfig`, with the combined middlewares and effects on one event, and the address
-- and the id of the client
pub record SocketConfig (P V : Type 0) : Type 0 where
  pub middlewares : WsEvent P V → WsCalled P V
  pub effects : WsEvent P V → WsCalled P V
  pub output : WsEvent P V → WsCalled P V
  pub error_effect : ErrorValue V → WsCalled P V
  pub decode : Text → WsDecoded P V
  pub address : Text
  pub client_id : Text

-- `{ name, message, data }` of an error, less what is not defined
abbrev pub described : {V : Type 0} → List Text → ErrorValue V → List (Text × V)
described [] error = []
described (key ∷ keys) error = elim (property key error) [
  | none ↦ described keys error
  | some v ↦ (key, v) ∷ described keys error
]

-- `mapError` and `mapEventError`, with the type of the event of an `EventError`
unfoldable pub map_error : {P V : Type 0} → ErrorValue V → WsEvent P V
map_error error = record {
  event_type = codes "UNHANDLED_ERROR";
  payload = none;
  error = some (with_properties (described (codes "name" ∷ codes "message" ∷ []) error) none);
  metadata = none;
}

unfoldable pub map_event_error : {P V : Type 0} → Text → ErrorValue V → WsEvent P V
map_event_error type_of_event error = record {
  event_type = type_of_event;
  payload = none;
  error =
      some (
        with_properties (described (codes "name" ∷ codes "message" ∷ codes "data" ∷ []) error)
          none);
  metadata = none;
}

-- `defaultError$`
unfoldable pub default_ws_error :
    {P V : Type 0} → (V → Text → Bool) → (ErrorValue V → Text) → ErrorValue V → WsEvent P V
unfolding map_error map_event_error is_event_error
default_ws_error equals type_of error =
    if is_event_error equals error then map_event_error (type_of error) error else map_error error

module _ {P V : Type 0} where
  abbrev pub emitted_events : WsCalled P V → List (WsEvent P V)
  emitted_events (threw err) = []
  emitted_events (returned out) = out.events

  abbrev pub failure_of : WsCalled P V → Option (ErrorValue V)
  failure_of (threw err) = some err
  failure_of (returned out) = out.failure

  -- `({ metadata, ...event }) => event`
  unfoldable pub strip_metadata : WsEvent P V → WsEvent P V
  strip_metadata event = record event { metadata = none }

module _ {P V : Type 0} (config : SocketConfig P V) where
  unfoldable pub apply_ws_metadata : WsEvent P V → WsEvent P V
  apply_ws_metadata event = record event {
    metadata = some (record { reply_to = config.address; correlation_id = config.client_id });
  }

  -- The state is the list of the events given to `client.sendResponse`.
  unfoldable pub ws_error : ErrorValue V → List (WsEvent P V) → List (WsEvent P V)
  ws_error err sent = sent ++ emitted_events (config.error_effect err)

  unfoldable pub ws_failure : Option (ErrorValue V) → List (WsEvent P V) → List (WsEvent P V)
  unfolding ws_error
  ws_failure none sent = sent
  ws_failure (some err) sent = ws_error err sent

  abbrev pub ws_unless_failed :
      Option (ErrorValue V) → List (WsEvent P V) → List (WsEvent P V) → List (WsEvent P V)
  ws_unless_failed none rest failed = rest
  ws_unless_failed (some err) rest failed = failed

  -- `output$`, `applyMetadata` and the removal of the metadata on one event
  unfoldable pub ws_output : WsEvent P V → List (WsEvent P V)
  unfolding apply_ws_metadata strip_metadata
  ws_output event =
      map (λ e. strip_metadata (apply_ws_metadata e)) (emitted_events (config.output event))

  unfoldable pub ws_outputs :
      List (WsEvent P V) → Option (ErrorValue V) → List (WsEvent P V) → List (WsEvent P V)
  unfolding ws_failure ws_output
  ws_outputs [] failure sent = ws_failure failure sent
  ws_outputs (event ∷ events) failure sent =
      let more = sent ++ ws_output event in
      let rest = ws_outputs events failure more in
      let error = failure_of (config.output event) in
      ws_unless_failed error rest (ws_failure error more)

  -- `eventSubject.next(event)`
  unfoldable pub ws_handle : List (WsEvent P V) → List (WsEvent P V) → List (WsEvent P V)
  unfolding ws_outputs
  ws_handle [] sent = sent
  ws_handle (event ∷ events) sent =
      ws_handle events (
        ws_outputs (emitted_events (config.effects event)) (failure_of (config.effects event)) sent)

  unfoldable pub ws_incoming : WsDecoded P V → List (WsEvent P V) → List (WsEvent P V)
  unfolding ws_failure ws_handle ws_error apply_ws_metadata
  ws_incoming (ws_undecodable err) sent = ws_error err sent
  ws_incoming (ws_decoded event) sent =
      let out = config.middlewares (apply_ws_metadata event) in
      ws_failure (failure_of out) (ws_handle (emitted_events out) sent)

  -- a message of the client
  unfoldable pub ws_receive : Text → List (WsEvent P V) → List (WsEvent P V)
  unfolding ws_incoming
  ws_receive message sent = ws_incoming (config.decode message) sent
