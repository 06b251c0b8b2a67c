-- ===== src/Messaging/Client/Calls.antt =====
-- A remote call over the local transport: messaging.client.ts, messaging.server.listener.ts and
-- local.strategy.ts of packages/messaging/src together.
use marble_js.Base.{◌≡◌, refl, Option, none, some, true, false, [], ◌∷◌, ◌++◌, Text, All, ==_refl}
use marble_js.Core.Events.{returned}
use marble_js.Messaging.Client.{
  ClientConfig, decoded_outcome, outcome_of, request_of, deliver, deliver_all, call_local,
  catch_error_event,
}
use marble_js.Messaging.Listener.{
  MsgEvent, MsgCalled, ListenerConfig, ListenerState, send, send_all, process_failure, output_of,
  send_output, unless_failed, send_outputs, handle_event, handle_event_if, handle_events,
  next_errors, apply_input, handle_input, handle_message, receive_if, receive, IsOpen,
}
use marble_js.Messaging.Middlewares.Outgoing.{encode_output_error-metadata}
use marble_js.Messaging.Middlewares.{encode_output_error, route_output, apply_id}
use marble_js.Messaging.Transport.{
  TransportMessage, event_decoded, apply_metadata, decode_message, decoded_event, correlation_field,
  reply_field, raw_field, LocalConnection, is_foreign, is_answer, answer, emit_message,
  send_message,
}
use marble_js.Messaging.Transport.Calls.{find-append}

-- the stream of one event
abbrev pub just : {P V : Type 0} → MsgEvent P V → MsgCalled P V
just event = returned (record { events = event ∷ []; failure = none })

module _ {P V : Type 0} (listener : ListenerConfig P V) where
  -- A listener without middlewares and an output effect of its own.
  abbrev pub IsPlain : Type 0
  IsPlain =
      ((event : MsgEvent P V) → listener.middlewares event ≡ just event)
      × ((event : MsgEvent P V) → listener.output event ≡ just event)

  abbrev pub identified_by : Text → TransportMessage → TransportMessage
  identified_by uuid message = record message { reply_to = some uuid; correlation_id = some uuid }

  -- what the listener sends for an answer that has a channel and an id
  abbrev pub answer_to : Text → MsgEvent P V → TransportMessage
  unfolding encode_output_error
  answer_to uuid answered =
      let sent = encode_output_error listener.truthy listener.payload_access answered in
      record {
        data_text = listener.encode sent.event_type sent.payload sent.error;
        reply_to = some uuid;
        correlation_id = some uuid;
      }

  send_outputs-just :
      (uuid : Text) (answered : MsgEvent P V) (st : ListenerState)
      → ((event : MsgEvent P V) → listener.output event ≡ just event)
      → reply_field answered.metadata ≡ some uuid
      → correlation_field answered.metadata ≡ some uuid
      → (raw : Option TransportMessage) × ((send_outputs listener (answered ∷ []) none st).sent
          ≡ st.sent ++ record { channel = uuid; message = answer_to uuid answered; raw = raw } ∷ [])
  unfolding send_outputs send_output output_of unless_failed process_failure send_all send
      route_output
  send_outputs-just uuid answered st output to id = (
    raw_field answered.metadata,
    rw (output _) (
        rw (encode_output_error-metadata listener.truthy listener.payload_access answered)
          (rw to (rw id refl))),
  )

  -- an open listener answers a message that its effects answer
  pub receive-just :
      (uuid : Text) (message : TransportMessage) (event answered : MsgEvent P V)
      (st : ListenerState)
      → ((event : MsgEvent P V) → listener.output event ≡ just event)
      → IsOpen st
      → listener.decode message.data_text ≡ event_decoded event
      → listener.middlewares (apply_metadata (identified_by uuid message) event)
        ≡ just (apply_metadata (identified_by uuid message) event)
      → listener.effects (apply_metadata (identified_by uuid message) event) ≡ just answered
      → reply_field answered.metadata ≡ some uuid
      → correlation_field answered.metadata ≡ some uuid
      → (raw : Option TransportMessage) × ((receive listener (identified_by uuid message) st).sent
          ≡ st.sent ++ record { channel = uuid; message = answer_to uuid answered; raw = raw } ∷ [])
  unfolding receive receive_if handle_message decode_message decoded_event next_errors apply_input
      handle_input handle_events handle_event handle_event_if process_failure apply_id
  receive-just uuid message event answered st output opened decodes passes replies to id =
      rw (opened.0) (
        rw (opened.1.0) (
          rw decodes (
            rw passes
              (rw (opened.1.1) (rw replies (send_outputs-just uuid answered _ output to id))))))

answer-deliver :
    (uuid : Text) (request response : TransportMessage) (raw : Option TransportMessage)
    (conn : LocalConnection)
    → is_foreign uuid conn.channel ≡ true
    → All (λ m. is_answer uuid m ≡ false) conn.rpc_subject
    → response.reply_to ≡ some uuid
    → response.correlation_id ≡ some uuid
    → answer uuid (
        deliver_all
          (record { channel = uuid; message = response; raw = raw } ∷ [])
          (send_message uuid request conn))
      ≡ some response
unfolding answer deliver_all deliver emit_message send_message
answer-deliver uuid request response raw conn foreign fresh to id = rw foreign (
    find-append (is_answer uuid) conn.rpc_subject response [] fresh
      (rw to (rw id (rw (==_refl uuid) refl))))

-- A remote call over the local transport returns what the effect of the listener answers: with a
-- fresh id that is not the channel of the connection, an open listener without middlewares and
-- output of its own that decodes the event of the request, whose effects answer it with one event
-- that goes to the channel of the id with the id, and a client that decodes the response from what
-- is sent of that answer, its error encoded, the outcome is that of the response.
pub call_local-returns :
    {P V : Type 0} (client : ClientConfig P V) (listener : ListenerConfig P V) (uuid : Text)
    (event request answered response : MsgEvent P V) (conn : LocalConnection) (st : ListenerState)
    → IsPlain listener
    → IsOpen st
    → is_foreign uuid conn.channel ≡ true
    → All (λ m. is_answer uuid m ≡ false) conn.rpc_subject
    → listener.decode (client.encode_event event) ≡ event_decoded request
    → listener.effects
        (apply_metadata (identified_by listener uuid (request_of client event)) request)
      ≡ just answered
    → reply_field answered.metadata ≡ some uuid
    → correlation_field answered.metadata ≡ some uuid
    → client.decode (answer_to listener uuid answered).data_text ≡ event_decoded response
    → call_local client listener uuid event conn st ≡ catch_error_event client response
unfolding call_local outcome_of decoded_outcome
call_local-returns client listener uuid event request answered response conn st plain opened foreign
      fresh decodes replies to id responds =
    let message = request_of client event in
    let handled =
      receive-just listener uuid message request answered (record st { sent = [] }) plain.1 opened
        decodes (plain.0 _) replies to id in
    rw (handled.1) (
      rw
        (answer-deliver uuid message (answer_to listener uuid answered) handled.0 conn foreign fresh
          refl refl)
        (rw responds refl))
