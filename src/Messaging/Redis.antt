-- ===== src/Messaging/Redis.antt =====
-- packages/messaging/src/transport/strategies/redis.strategy.ts: a connection as the state of its
-- three clients, where the package `redis` answers every call with an error or without. Messages
-- arrive in a given order; a call that is not answered waits. A call of `sendMessage` is two steps,
-- since messages can arrive while it awaits its publication. The codec is in Transport.
pub mod Subscriptions
pub mod Leaks
pub mod Exchange
mod Tests
use marble_js.Base.{
  ℕ, Option, none, some, Bool, true, false, not, ◌&&◌, List, [], ◌∷◌, ◌++◌, Text, codes, ◌==◌, any,
  keep, map, or_else, Dict, lookup, insert, erase, if◌then◌else◌,
}
use marble_js.Messaging.Transport.{TransportMessage, encode_message, decode_redis_message}

-- `RedisStrategyOptions`, less the address of the server
pub record RedisOptions : Type 0 where
  pub channel : Text
  pub timeout : Option ℕ

-- `RedisIncomingMsg`
pub record RedisIncomingMsg : Type 0 where
  pub channel : Text
  pub content : Text

-- A promise of `sendMessage` that is settled: the reply channel, and the decoded message, or none
-- when decoding it throws.
pub record SettledCall : Type 0 where
  pub reply_channel : Text
  pub response : Option TransportMessage

-- `rpc_channels` and `channels` are what the two subscribers are subscribed to, `publishing` the
-- calls of `sendMessage` that await their publication, with whether it succeeds, `pending` the reply
-- channels of the calls that are subscribed to `producerSubject`, and the lists of messages are in the order of the calls:
-- what was published, what `message$` gave (none for an error that decoding throws), and what was
-- settled.
pub record RedisConnection : Type 0 where
  pub options : RedisOptions
  pub is_consumer : Bool
  pub channels : List Text
  pub rpc_channels : List Text
  pub publishing : Dict Bool
  pub pending : List Text
  pub published : List RedisIncomingMsg
  pub consumed : List (Option TransportMessage)
  pub settled : List SettledCall
  pub is_listening : Bool

abbrev pub redis_timeout : RedisOptions → ℕ
redis_timeout options = or_else options.timeout 120000

-- The subscription that a client of `redis` has afterwards.
abbrev pub subscribe : Text → List Text → List Text
subscribe channel channels =
    if any (λ c. c == channel) channels then channels else channel ∷ channels

abbrev pub unsubscribe : Text → List Text → List Text
unsubscribe channel channels = keep (λ c. not (c == channel)) channels

-- `connect`, when the clients connect and the consumer is subscribed
unfoldable pub redis_connect : Option Bool → RedisOptions → RedisConnection
redis_connect data_consumer options =
    let is_consumer = or_else data_consumer false in
    record {
      options = options;
      is_consumer = is_consumer;
      channels = if is_consumer then options.channel ∷ [] else [];
      rpc_channels = [];
      publishing = [];
      pending = [];
      published = [];
      consumed = [];
      settled = [];
      is_listening = true;
    }

-- `emitMessage`: the new state, and `true`, or `false` for the rejected promise of a publication
-- that fails
unfoldable pub redis_emit :
    Bool → Text → TransportMessage → RedisConnection → RedisConnection × Bool
unfolding encode_message
redis_emit fails target message conn = if fails then (conn, false) else (
  record conn {
    published =
        conn.published
        ++ record {
          channel = target;
          content = encode_message message.correlation_id message.data_text;
        }
          ∷ [];
  },
  true,
)

-- `sendMessage` up to its second `await`, with the id of `createUuid`, and whether the subscription
-- and the publication fail
unfoldable pub redis_send :
    Bool → Bool → Text → Text → TransportMessage → RedisConnection → RedisConnection
unfolding redis_emit
redis_send subscribe_fails publish_fails uuid target message conn =
    if subscribe_fails
    then conn
    else let subscribed = record conn { rpc_channels = subscribe uuid conn.rpc_channels } in
      let emitted =
        redis_emit publish_fails target (record message { correlation_id = some uuid })
          subscribed in
      record emitted.0 { publishing = insert uuid emitted.1 emitted.0.publishing }

-- what `sendMessage` does once the publication has ended: it subscribes to the subject, or rejects
unfoldable pub wait_if : Option Bool → Text → RedisConnection → RedisConnection
wait_if none reply_channel conn = conn
wait_if (some false) reply_channel conn = record conn {
  publishing = erase reply_channel conn.publishing;
}
wait_if (some true) reply_channel conn = record conn {
  publishing = erase reply_channel conn.publishing;
  pending = conn.pending ++ reply_channel ∷ [];
}

-- the publication of the call with the id is answered
unfoldable pub redis_published : Text → RedisConnection → RedisConnection
unfolding wait_if
redis_published uuid conn = wait_if (lookup uuid conn.publishing) uuid conn

-- the calls that wait for a channel: each takes one message, unsubscribes and decodes it
abbrev pub settle_waiting : RedisIncomingMsg → List Text → List SettledCall
settle_waiting msg waiting =
    map (λ c. record { reply_channel = c; response = decode_redis_message msg.content })
      (keep (λ c. msg.channel == c) waiting)

-- the promise of `unsubscribeChannel` is dropped: when it rejects, the channel stays subscribed
unfoldable pub settle_calls : Bool → RedisIncomingMsg → RedisConnection → RedisConnection
settle_calls unsubscribe_fails msg conn =
    if any (λ c. msg.channel == c) conn.pending
    then record conn {
      pending = keep (λ c. not (msg.channel == c)) conn.pending;
      rpc_channels =
          if unsubscribe_fails
          then conn.rpc_channels
          else unsubscribe msg.channel conn.rpc_channels;
      settled = conn.settled ++ settle_waiting msg conn.pending;
    }
    else conn

-- a message of the RPC subscriber, which a consumer does not listen to
unfoldable pub rpc_message_unless :
    Bool → Bool → RedisIncomingMsg → RedisConnection → RedisConnection
unfolding settle_calls
rpc_message_unless true unsubscribe_fails msg conn = conn
rpc_message_unless false unsubscribe_fails msg conn = settle_calls unsubscribe_fails msg conn

-- with whether the unsubscription of a call that it answers fails
unfoldable pub rpc_message : Bool → RedisIncomingMsg → RedisConnection → RedisConnection
unfolding rpc_message_unless
rpc_message unsubscribe_fails msg conn =
    rpc_message_unless conn.is_consumer unsubscribe_fails msg conn

-- a message of the subscriber, which a consumer only listens to, until it is closed
unfoldable pub consumer_message : RedisIncomingMsg → RedisConnection → RedisConnection
consumer_message msg conn =
    if conn.is_consumer && conn.is_listening
    then record conn { consumed = conn.consumed ++ decode_redis_message msg.content ∷ [] }
    else conn

-- `close`, when the three clients quit: they have no subscriptions, and `message` is not listened to
-- by the subscriber
unfoldable pub redis_close : RedisConnection → RedisConnection
redis_close conn = record conn { channels = []; rpc_channels = []; is_listening = false }
