-- ===== src/Messaging/Client/Unanswered.antt =====
-- A remote call whose effect throws: messaging.client.ts, messaging.server.listener.ts and
-- local.strategy.ts of packages/messaging/src together.
use marble_js.Base.{◌≡◌, refl, none, Bool, true, false, List, [], ◌∷◌, Text, All, find}
use marble_js.Core.Errors.{ErrorValue}
use marble_js.Core.Events.{threw}
use marble_js.Messaging.Client.{
  ClientConfig, call_threw, timeout_error, outcome_of, request_of, deliver, deliver_all, call_local,
}
use marble_js.Messaging.Client.Calls.{just, identified_by, IsPlain}
use marble_js.Messaging.Listener.{
  MsgEvent, Emission, ListenerConfig, ListenerState, default_error, send, send_all, handle_error_if,
  send_errors, process_error, next_error, process_failure, send_outputs, handle_event,
  handle_event_if, handle_events, next_errors, apply_input, handle_input, handle_message,
  receive_if, receive, IsOpen,
}
use marble_js.Messaging.Middlewares.{apply_id}
use marble_js.Messaging.Transport.{
  TransportMessage, event_decoded, apply_metadata, decode_message, decoded_event, LocalConnection,
  is_answer, answer, emit_message, send_message,
}

find-none :
    (p : TransportMessage → Bool) (ms : List TransportMessage)
    → All (λ m. p m ≡ false) ms
    → find p ms ≡ none
find-none p [] h = refl
find-none p (m ∷ ms) h = rw h.0 (find-none p ms h.1)

-- Every emission goes to the empty channel.
abbrev pub AllUnrouted : List Emission → Type 0
AllUnrouted = All (λ emission. emission.channel ≡ [])

deliver_all-AllUnrouted :
    (emissions : List Emission) (conn : LocalConnection)
    → AllUnrouted emissions
    → (deliver_all emissions conn).rpc_subject ≡ conn.rpc_subject
unfolding deliver_all deliver emit_message
deliver_all-AllUnrouted [] conn h = refl
deliver_all-AllUnrouted (emission ∷ emissions) conn h =
    rw h.0 (deliver_all-AllUnrouted emissions _ h.1)

module _ {P V : Type 0} (listener : ListenerConfig P V) where
  -- The error effect of a listener that is given none.
  abbrev pub HasDefaultErrors : Type 0
  HasDefaultErrors = (err : ErrorValue V) → listener.error_effect err ≡ just (default_error err)

  handle_error_if-AllUnrouted :
      (b : Bool) (err : ErrorValue V) (st : ListenerState)
      → HasDefaultErrors
      → st.sent ≡ []
      → AllUnrouted (handle_error_if listener b err st).sent
  unfolding handle_error_if send_errors send_all send default_error
  handle_error_if-AllUnrouted true err st default none_sent =
      rw (default err) (rw none_sent (refl, tt))
  handle_error_if-AllUnrouted false err st default none_sent = rw none_sent tt

  receive-threw :
      (uuid : Text) (message : TransportMessage) (event : MsgEvent P V) (err : ErrorValue V)
      (st : ListenerState)
      → IsPlain listener
      → HasDefaultErrors
      → IsOpen st
      → listener.decode message.data_text ≡ event_decoded event
      → listener.effects (apply_metadata (identified_by listener uuid message) event) ≡ threw err
      → AllUnrouted
          (receive listener (identified_by listener uuid message) (record st { sent = [] })).sent
  unfolding receive receive_if handle_message decode_message decoded_event next_errors apply_input
      handle_input handle_events handle_event handle_event_if process_failure next_error apply_id
      send_outputs process_error
  receive-threw uuid message event err st plain default opened decodes throws = rw (opened.0) (
      rw (opened.1.0) (
        rw decodes (
          rw (plain.0 _) (
            rw (opened.1.1)
              (rw throws (handle_error_if-AllUnrouted st.is_error_open err _ default refl))))))

-- An error that an effect throws outside `act` is not answered: on the local transport, with the
-- default error effect, an open listener without middlewares and output of its own that decodes the
-- event of the request, and no earlier answer with the id, the call ends with its timeout.
pub call_local-threw :
    {P V : Type 0} (client : ClientConfig P V) (listener : ListenerConfig P V) (uuid : Text)
    (event request : MsgEvent P V) (err : ErrorValue V) (conn : LocalConnection)
    (st : ListenerState)
    → IsPlain listener
    → HasDefaultErrors listener
    → IsOpen st
    → All (λ m. is_answer uuid m ≡ false) conn.rpc_subject
    → listener.decode (client.encode_event event) ≡ event_decoded request
    → listener.effects
        (apply_metadata (identified_by listener uuid (request_of client event)) request)
      ≡ threw err
    → call_local client listener uuid event conn st ≡ call_threw timeout_error
unfolding call_local outcome_of answer send_message
call_local-threw client listener uuid event request err conn st plain default opened fresh decodes
      throws =
    let message = request_of client event in
    let unrouted =
      receive-threw listener uuid message request err st plain default opened decodes throws in
    rw (deliver_all-AllUnrouted _ (send_message uuid message conn) unrouted)
      (rw (find-none (is_answer uuid) conn.rpc_subject fresh) refl)
