-- ===== src/Messaging/Client/Recovery.antt =====
-- What a listener of packages/messaging/src/server/messaging.server.listener.ts answers after
-- failures.
use marble_js.Base.{◌≡◌, ap, ◌∙◌, Option, some, List, [], ◌∷◌, ◌++◌, Text}
use marble_js.Messaging.Client.Calls.{just, identified_by, answer_to, receive-just}
use marble_js.Messaging.Listener.{
  MsgEvent, Emission, ListenerConfig, ListenerState, IsOpen, receive,
}
use marble_js.Messaging.Listener.Survives.{Continues, receive_run, receive-Continues}
use marble_js.Messaging.Transport.{
  TransportMessage, event_decoded, apply_metadata, correlation_field, reply_field,
}

module _ {P V : Type 0} (listener : ListenerConfig P V) where
  receive_run-IsOpen :
      (msgs : List TransportMessage) (st : ListenerState)
      → IsOpen st
      → IsOpen (receive_run listener msgs st)
  unfolding Continues
  receive_run-IsOpen msgs st opened =
      let (streams, errors, more, same) = receive-Continues listener msgs st in
      (streams.0 ∙ opened.0, (streams.1.0 opened.1.0, streams.1.1 opened.1.1))

  -- An open listener without an output effect of its own still answers after any run of messages,
  -- however many of them cannot be decoded and whatever its middlewares, its effects and its error
  -- effect throw: when it then receives a message that it decodes, whose event its middlewares pass
  -- and its effects answer with one event that goes to the channel of the id with the id, it sends
  -- exactly that answer, behind what it sent before and during the run.
  pub receive-receive_run :
      (msgs : List TransportMessage) (st : ListenerState) (uuid : Text) (message : TransportMessage)
      (event answered : MsgEvent P V)
      → IsOpen st
      → ((e : MsgEvent P V) → listener.output e ≡ just e)
      → listener.decode message.data_text ≡ event_decoded event
      → listener.middlewares (apply_metadata (identified_by listener uuid message) event)
        ≡ just (apply_metadata (identified_by listener uuid message) event)
      → listener.effects (apply_metadata (identified_by listener uuid message) event)
        ≡ just answered
      → reply_field answered.metadata ≡ some uuid
      → correlation_field answered.metadata ≡ some uuid
      → (more : List Emission) × (raw : Option TransportMessage) × ((receive listener
            (identified_by listener uuid message)
            (receive_run listener msgs st)).sent
          ≡ st.sent
            ++ more
            ++ record { channel = uuid; message = answer_to listener uuid answered; raw = raw }
              ∷ [])
  unfolding Continues
  receive-receive_run msgs st uuid message event answered opened output decodes passes replies to
        id =
      let (streams, errors, more, same) = receive-Continues listener msgs st in
      let last =
        receive-just listener uuid message event answered (receive_run listener msgs st) output
          (receive_run-IsOpen msgs st opened) decodes passes replies to id in
      let emission : Emission = record {
        channel = uuid;
        message = answer_to listener uuid answered;
        raw = last.0;
      } in
      (more, last.0, last.1 ∙ ap (λ sent. sent ++ emission ∷ []) same)
