-- ===== src/Sockets/Listener/Metadata.antt =====
-- What packages/websockets/src/server/websocket.server.listener.ts sends to a client.
use marble_js.Base.{
  ◌≡◌, refl, inl, inr, Option, none, some, Bool, List, [], ◌∷◌, Text, All, All-append, map,
  Bool-cases,
}
use marble_js.Core.Errors.{ErrorValue, is_event_error}
use marble_js.Core.Events.{returned}
use marble_js.Sockets.Listener.{
  WsEvent, WsDecoded, ws_decoded, ws_undecodable, SocketConfig, map_error, map_event_error,
  default_ws_error, emitted_events, failure_of, strip_metadata, apply_ws_metadata, ws_error,
  ws_failure, ws_unless_failed, ws_output, ws_outputs, ws_handle, ws_incoming, ws_receive,
}

-- Events without metadata.
abbrev pub AllStripped : {P V : Type 0} → List (WsEvent P V) → Type 0
AllStripped = All (λ e. e.metadata ≡ none)

-- The error effect of a listener that is given none, over what it reads of an error.
abbrev pub HasDefaultErrors : {P V : Type 0} → SocketConfig P V → Type 0
HasDefaultErrors {V = V} config =
    (equals : V → Text → Bool) × (type_of : ErrorValue V → Text) × ((err : ErrorValue V)
      → config.error_effect err
        ≡ returned (record { events = default_ws_error equals type_of err ∷ []; failure = none }))

-- A run of messages, on the events that were sent.
unfoldable pub ws_run :
    {P V : Type 0} → SocketConfig P V → List Text → List (WsEvent P V) → List (WsEvent P V)
unfolding ws_receive
ws_run config [] sent = sent
ws_run config (message ∷ messages) sent = ws_run config messages (ws_receive config message sent)

module _ {P V : Type 0} (config : SocketConfig P V) (default : HasDefaultErrors config) where
  default-metadata :
      (err : ErrorValue V) → (default_ws_error {P = P} default.0 default.1 err).metadata ≡ none
  unfolding default_ws_error map_error map_event_error
  default-metadata err = elim (Bool-cases (is_event_error default.0 err)) [
    | inl is ↦ rw is refl
    | inr other ↦ rw other refl
  ]

  ws_error-AllStripped :
      (err : ErrorValue V) (sent : List (WsEvent P V))
      → AllStripped sent
      → AllStripped (ws_error config err sent)
  unfolding ws_error
  ws_error-AllStripped err sent h =
      rw (default.2 err) (All-append _ sent _ h (default-metadata err, tt))

  ws_failure-AllStripped :
      (failure : Option (ErrorValue V)) (sent : List (WsEvent P V))
      → AllStripped sent
      → AllStripped (ws_failure config failure sent)
  unfolding ws_failure
  ws_failure-AllStripped none sent h = h
  ws_failure-AllStripped (some err) sent h = ws_error-AllStripped err sent h

  map-AllStripped :
      (events : List (WsEvent P V))
      → AllStripped (map (λ e. strip_metadata (apply_ws_metadata config e)) events)
  unfolding strip_metadata
  map-AllStripped [] = tt
  map-AllStripped (event ∷ events) = (refl, map-AllStripped events)

  unless_failed-AllStripped :
      (failure : Option (ErrorValue V)) (rest failed : List (WsEvent P V))
      → AllStripped rest
      → AllStripped failed
      → AllStripped (ws_unless_failed config failure rest failed)
  unless_failed-AllStripped none rest failed h k = h
  unless_failed-AllStripped (some err) rest failed h k = k

  ws_outputs-AllStripped :
      (events : List (WsEvent P V)) (failure : Option (ErrorValue V)) (sent : List (WsEvent P V))
      → AllStripped sent
      → AllStripped (ws_outputs config events failure sent)
  unfolding ws_outputs ws_output
  ws_outputs-AllStripped [] failure sent h = ws_failure-AllStripped failure sent h
  ws_outputs-AllStripped (event ∷ events) failure sent h =
      let more = All-append _ sent _ h (map-AllStripped (emitted_events (config.output event))) in
      unless_failed-AllStripped (failure_of (config.output event)) _ _
        (ws_outputs-AllStripped events failure _ more)
        (ws_failure-AllStripped (failure_of (config.output event)) _ more)

  ws_handle-AllStripped :
      (events : List (WsEvent P V)) (sent : List (WsEvent P V))
      → AllStripped sent
      → AllStripped (ws_handle config events sent)
  unfolding ws_handle
  ws_handle-AllStripped [] sent h = h
  ws_handle-AllStripped (event ∷ events) sent h = ws_handle-AllStripped events _ (
      ws_outputs-AllStripped (emitted_events (config.effects event))
        (failure_of (config.effects event)) sent h)

  ws_incoming-AllStripped :
      (decoded : WsDecoded P V) (sent : List (WsEvent P V))
      → AllStripped sent
      → AllStripped (ws_incoming config decoded sent)
  unfolding ws_incoming
  ws_incoming-AllStripped (ws_undecodable err) sent h = ws_error-AllStripped err sent h
  ws_incoming-AllStripped (ws_decoded event) sent h =
      let out = config.middlewares (apply_ws_metadata config event) in
      ws_failure-AllStripped (failure_of out) _ (ws_handle-AllStripped (emitted_events out) sent h)

  -- With the default error effect, no event that a listener sends to its client in a run of messages
  -- has metadata, whatever the middlewares, the effects and the output give or throw, and whichever
  -- messages cannot be decoded.
  pub ws_run-AllStripped :
      (messages : List Text) (sent : List (WsEvent P V))
      → AllStripped sent
      → AllStripped (ws_run config messages sent)
  unfolding ws_run ws_receive
  ws_run-AllStripped [] sent h = h
  ws_run-AllStripped (message ∷ messages) sent h =
      ws_run-AllStripped messages _ (ws_incoming-AllStripped (config.decode message) sent h)
