-- ===== src/Messaging/Listener/Survives.antt =====
-- What failures do to a listener of packages/messaging/src/server/messaging.server.listener.ts.
use marble_js.Base.{
  ◌≡◌, refl, sym, ◌∙◌, ap, Option, none, some, Bool, true, false, List, [], ◌∷◌, ◌++◌, append-nil,
  append_assoc, Text,
}
use marble_js.Core.Errors.{ErrorValue}
use marble_js.Messaging.Listener.{
  MsgEvent, Emission, ListenerConfig, ListenerState, emitted_of, send, send_all, handle_error_if,
  next_error, process_error, send_errors, close_errors, ListenerStream, incoming, outgoing,
  set_open, process_failure, drawn, output_of, send_output, unless_failed, send_outputs,
  handle_event_if, handle_event, handle_events, next_errors, apply_input, handle_input,
  handle_message, receive_if, receive,
}
use marble_js.Messaging.Transport.{TransportMessage, correlation_field, decode_message}

-- An error effect that never fails.
abbrev pub ErrorsHandled : {P V : Type 0} → ListenerConfig P V → Type 0
ErrorsHandled {V = V} config =
    (err : ErrorValue V) → (emitted_of (config.error_effect err)).failure ≡ none

-- The connection is as closed as it was, and a stream that was subscribed is.
abbrev pub KeepsOpen : ListenerState → ListenerState → Type 0
KeepsOpen st next =
    (next.is_closed ≡ st.is_closed)
    × ((st.is_incoming_open ≡ true → next.is_incoming_open ≡ true)
        × (st.is_outgoing_open ≡ true → next.is_outgoing_open ≡ true))

-- A state that follows another: an open listener stays open, what was sent stays, and the error
-- stream is as open as it was when its effect never fails.
unfoldable pub Continues :
    {P V : Type 0} → ListenerConfig P V → ListenerState → ListenerState → Type 0
Continues config st next =
    KeepsOpen st next
    × (ErrorsHandled config → next.is_error_open ≡ st.is_error_open)
    × (more : List Emission) × (next.sent ≡ st.sent ++ more)

-- A run of messages.
unfoldable pub receive_run :
    {P V : Type 0} → ListenerConfig P V → List TransportMessage → ListenerState → ListenerState
unfolding receive
receive_run config [] st = st
receive_run config (msg ∷ msgs) st = receive_run config msgs (receive config msg st)

module _ {P V : Type 0} (config : ListenerConfig P V) where
  Continues-refl : (st : ListenerState) → Continues config st st
  unfolding Continues
  Continues-refl st = ((refl, ((λ o. o), (λ o. o))), (λ h. refl), [], sym (append-nil st.sent))

  Continues-trans :
      (a b c : ListenerState) → Continues config a b → Continues config b c → Continues config a c
  unfolding Continues
  Continues-trans a b c ((p, (i, u)), o, m, e) ((q, (j, v)), r, n, f) = (
    (q ∙ p, ((λ h. j (i h)), (λ h. v (u h)))),
    (λ h. r h ∙ o h),
    m ++ n,
    f ∙ ap (λ t. t ++ n) e ∙ append_assoc a.sent m n,
  )

  sent-Continues :
      (event : MsgEvent P V) (st : ListenerState)
      → Continues config st (record st { sent = st.sent ++ send config event ∷ [] })
  unfolding Continues
  sent-Continues event st =
      ((refl, ((λ o. o), (λ o. o))), (λ h. refl), send config event ∷ [], refl)

  send_all-Continues :
      (events : List (MsgEvent P V)) (st : ListenerState)
      → Continues config st (send_all config events st)
  unfolding send_all
  send_all-Continues [] st = Continues-refl st
  send_all-Continues (event ∷ events) st =
      Continues-trans st _ _ (sent-Continues event st) (send_all-Continues events _)

  close_errors-Continues :
      (failure : Option (ErrorValue V)) (st : ListenerState)
      → (ErrorsHandled config → failure ≡ none)
      → Continues config st (close_errors config failure st)
  unfolding Continues
  close_errors-Continues none st handled = Continues-refl st
  close_errors-Continues (some err) st handled = (
    (refl, ((λ o. o), (λ o. o))),
    (λ h. let never = handled h in cc),
    [],
    sym (append-nil st.sent),
  )

  handle_error_if-Continues :
      (b : Bool) (err : ErrorValue V) (st : ListenerState)
      → Continues config st (handle_error_if config b err st)
  unfolding handle_error_if send_errors
  handle_error_if-Continues true err st =
      Continues-trans st _ _ (send_all-Continues (emitted_of (config.error_effect err)).events st)
        (close_errors-Continues (emitted_of (config.error_effect err)).failure _ (λ h. h err))
  handle_error_if-Continues false err st = Continues-refl st

  next_error-Continues :
      (err : ErrorValue V) (st : ListenerState) → Continues config st (next_error config err st)
  unfolding next_error
  next_error-Continues err st = handle_error_if-Continues st.is_error_open err st

  -- an error that ends a stream leaves it subscribed
  process_failure-Continues :
      (stream : ListenerStream) (failure : Option (ErrorValue V)) (st : ListenerState)
      → Continues config st (process_failure config stream failure st)
  unfolding process_failure process_error Continues
  process_failure-Continues stream none st = Continues-refl st
  process_failure-Continues incoming (some err) st =
      let (streams, errors, more, sent) = next_error-Continues err (set_open incoming false st) in
      ((streams.0, ((λ o. refl), streams.1.1)), errors, more, sent)
  process_failure-Continues outgoing (some err) st =
      let (streams, errors, more, sent) = next_error-Continues err (set_open outgoing false st) in
      ((streams.0, (streams.1.0, (λ o. refl))), errors, more, sent)

  unless_failed-Continues :
      (failure : Option (ErrorValue V)) (rest : ListenerState → ListenerState) (st : ListenerState)
      → Continues config st (rest st)
      → Continues config st (unless_failed config failure rest st)
  unfolding unless_failed
  unless_failed-Continues none rest st h = h
  unless_failed-Continues (some err) rest st h = process_failure-Continues outgoing (some err) st

  drawn-Continues :
      (id : Option Text) (st : ListenerState) → Continues config st (drawn config id st)
  unfolding Continues
  drawn-Continues none st =
      ((refl, ((λ o. o), (λ o. o))), (λ h. refl), [], sym (append-nil st.sent))
  drawn-Continues (some id) st =
      ((refl, ((λ o. o), (λ o. o))), (λ h. refl), [], sym (append-nil st.sent))

  send_output-Continues :
      (event : MsgEvent P V) (st : ListenerState)
      → Continues config st (send_output config event st).0
  unfolding send_output
  send_output-Continues event st =
      Continues-trans st _ _ (drawn-Continues (correlation_field event.metadata) st)
        (send_all-Continues (output_of config (config.uuid st.uuids) event).events _)

  send_outputs-Continues :
      (events : List (MsgEvent P V)) (failure : Option (ErrorValue V)) (st : ListenerState)
      → Continues config st (send_outputs config events failure st)
  unfolding send_outputs
  send_outputs-Continues [] failure st = process_failure-Continues outgoing failure st
  send_outputs-Continues (event ∷ events) failure st =
      let next = send_output config event st in
      Continues-trans st next.0 _ (send_output-Continues event st)
        (unless_failed-Continues next.1 _ next.0 (send_outputs-Continues events failure next.0))

  handle_event_if-Continues :
      (b : Bool) (event : MsgEvent P V) (st : ListenerState)
      → Continues config st (handle_event_if config b event st)
  unfolding handle_event_if
  handle_event_if-Continues false event st = Continues-refl st
  handle_event_if-Continues true event st = send_outputs-Continues _ _ st

  handle_events-Continues :
      (events : List (MsgEvent P V)) (st : ListenerState)
      → Continues config st (handle_events config events st)
  unfolding handle_events handle_event
  handle_events-Continues [] st = Continues-refl st
  handle_events-Continues (event ∷ events) st =
      Continues-trans st _ _ (handle_event_if-Continues st.is_outgoing_open event st)
        (handle_events-Continues events _)

  next_errors-Continues :
      (errs : List (ErrorValue V)) (st : ListenerState)
      → Continues config st (next_errors config errs st)
  unfolding next_errors
  next_errors-Continues [] st = Continues-refl st
  next_errors-Continues (err ∷ errs) st =
      Continues-trans st _ _ (next_error-Continues err st) (next_errors-Continues errs _)

  apply_input-Continues :
      (event : MsgEvent P V) (st : ListenerState)
      → Continues config st (apply_input config event st).1
  unfolding apply_input Continues
  apply_input-Continues event st = drawn-Continues (correlation_field event.metadata) st

  handle_input-Continues :
      (event : MsgEvent P V) (st : ListenerState)
      → Continues config st (handle_input config event st)
  unfolding handle_input
  handle_input-Continues event st =
      let out = emitted_of (config.middlewares event) in
      Continues-trans st _ _ (handle_events-Continues out.events st)
        (process_failure-Continues incoming out.failure _)

  handle_message-Continues :
      (msg : TransportMessage) (st : ListenerState)
      → Continues config st (handle_message config msg st)
  unfolding handle_message
  handle_message-Continues msg st =
      let decoded = decode_message config.decode msg in
      let failed = next_errors config decoded.1 st in
      let input = apply_input config decoded.0 failed in
      Continues-trans st failed _ (next_errors-Continues decoded.1 st) (
        Continues-trans failed input.1 _ (apply_input-Continues decoded.0 failed)
          (handle_input-Continues input.0 input.1))

  receive_if-Continues :
      (b is_open : Bool) (msg : TransportMessage) (st : ListenerState)
      → Continues config st (receive_if config b is_open msg st)
  unfolding receive_if
  receive_if-Continues true is_open msg st = Continues-refl st
  receive_if-Continues false false msg st = Continues-refl st
  receive_if-Continues false true msg st = handle_message-Continues msg st

  -- No run of messages ends a stream of an open listener, however many of them cannot be decoded and
  -- whatever the middlewares, the effects and the output throw; what was sent before stays first.
  pub receive-Continues :
      (msgs : List TransportMessage) (st : ListenerState)
      → Continues config st (receive_run config msgs st)
  unfolding receive receive_run
  receive-Continues [] st = Continues-refl st
  receive-Continues (msg ∷ msgs) st =
      Continues-trans st _ _ (receive_if-Continues st.is_closed st.is_incoming_open msg st)
        (receive-Continues msgs _)
