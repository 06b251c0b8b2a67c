-- ===== src/Messaging/Client.antt =====
-- packages/messaging/src/client/messaging.client.ts: the calls of a client, over a connection. The
-- codec and `JSON.stringify` are parameters; a response that does not come in time is an outcome.
pub mod Outcomes
pub mod Calls
pub mod Recovery
pub mod Unanswered
mod Tests
use marble_js.Base.{
  ℕ, Option, none, some, Bool, true, false, not, List, [], ◌∷◌, ◌++◌, Text, codes, or_else,
  or_option, foldl, if◌then◌else◌,
}
use marble_js.Core.Errors.{ErrorValue, nullish, property, is_event_error, is_named_error}
use marble_js.Core.Events.{Event}
use marble_js.Messaging.Listener.{MsgEvent, Emission, ListenerConfig, ListenerState, receive}
use marble_js.Messaging.Middlewares.{truthy_error_value}
use marble_js.Messaging.Transport.{
  TransportMessage, DecodedEvent, event_decoded, decode_threw, LocalConnection, emit_message,
  send_message, answer,
}

-- What `send` throws: an `EventError`, a `NamedError`, an `Error` of a text, what the transformer
-- throws, or the error of `timeout`.
pub data ClientError (P V : Type 0) : Type 0 where
  event_error : MsgEvent P V → Option V → Option V → ClientError P V
  named_error : Option V → Option V → ClientError P V
  invalid_error : Text → ClientError P V
  decode_error : ErrorValue V → ClientError P V
  timeout_error : ClientError P V

pub data CallOutcome (P V : Type 0) : Type 0 where
  call_returned : MsgEvent P V → CallOutcome P V
  call_threw : ClientError P V → CallOutcome P V

-- The transformer of a client, and what it reads of values.
pub record ClientConfig (P V : Type 0) : Type 0 where
  pub encode_event : MsgEvent P V → Text
  pub decode : Text → DecodedEvent P (ErrorValue V) (ErrorValue V)
  pub truthy : V → Bool
  pub equals : V → Text → Bool
  pub stringify : ErrorValue V → Text
  pub timeout : Option ℕ

abbrev pub default_timeout : ℕ
default_timeout = 120000

-- `config.options.timeout ?? connection.config.timeout ?? DEFAULT_TIMEOUT`
unfoldable pub timeout_value : Option ℕ → Option ℕ → ℕ
timeout_value options connection = or_else options (or_else connection default_timeout)

module _ {P V : Type 0} (config : ClientConfig P V) where
  -- the error of an event that has a true one
  unfoldable pub throw_error : MsgEvent P V → ErrorValue V → CallOutcome P V
  unfolding is_event_error is_named_error property
  throw_error event error =
      if is_event_error config.equals error
      then call_threw
          (event_error event (property (codes "message") error) (property (codes "data") error))
      else if is_named_error config.truthy error
      then call_threw
          (named_error (property (codes "name") error) (property (codes "message") error))
      else call_threw (invalid_error (config.stringify error))

  -- `!e.error ? of(e) : …`
  unfoldable pub catch_error_if : Bool → MsgEvent P V → Option (ErrorValue V) → CallOutcome P V
  unfolding throw_error
  catch_error_if false event error = call_returned event
  catch_error_if true event none = call_returned event
  catch_error_if true event (some error) = throw_error event error

  unfoldable pub catch_error_event : MsgEvent P V → CallOutcome P V
  unfolding catch_error_if
  catch_error_event event =
      catch_error_if (truthy_error_value config.truthy event.error) event event.error

  unfoldable pub decoded_outcome : DecodedEvent P (ErrorValue V) (ErrorValue V) → CallOutcome P V
  unfolding catch_error_event
  decoded_outcome (event_decoded event) = catch_error_event event
  decoded_outcome (decode_threw err) = call_threw (decode_error err)

  -- what follows `connection.sendMessage`, with the response that came in time
  unfoldable pub outcome_of : Option TransportMessage → CallOutcome P V
  unfolding decoded_outcome
  outcome_of none = call_threw timeout_error
  outcome_of (some m) = decoded_outcome (config.decode m.data_text)

  -- the message of `emit` and of `send`
  abbrev pub request_of : MsgEvent P V → TransportMessage
  request_of event = record {
    data_text = config.encode_event event;
    reply_to = none;
    correlation_id = none;
  }

  -- `emit`: the event goes to the channel of the connection
  unfoldable pub emit : MsgEvent P V → LocalConnection → LocalConnection
  unfolding emit_message
  emit event conn = emit_message conn.channel (request_of event) conn

-- a call of `emitMessage` by the listener
unfoldable pub deliver : Emission → LocalConnection → LocalConnection
unfolding emit_message
deliver emission conn = emit_message emission.channel emission.message conn

unfoldable pub deliver_all : List Emission → LocalConnection → LocalConnection
unfolding deliver
deliver_all [] conn = conn
deliver_all (emission ∷ emissions) conn = deliver_all emissions (deliver emission conn)

module _ {P V : Type 0} (config : ClientConfig P V) (listener : ListenerConfig P V) where
  -- `send` over the local connection: the message of `sendMessage` reaches the listener of the
  -- connection, what that sends is emitted, and the first answer is decoded
  unfoldable pub call_local :
      Text → MsgEvent P V → LocalConnection → ListenerState → CallOutcome P V
  unfolding receive send_message answer outcome_of deliver_all
  call_local uuid event conn st =
      let request = request_of config event in
      let message = record request { reply_to = some uuid; correlation_id = some uuid } in
      let handled = receive listener message (record st { sent = [] }) in
      outcome_of config (answer uuid (deliver_all handled.sent (send_message uuid request conn)))
