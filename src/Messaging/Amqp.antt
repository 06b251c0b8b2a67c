-- ===== src/Messaging/Amqp.antt =====
-- packages/messaging/src/transport/strategies/amqp.strategy.ts: what the connection decides and asks
-- of its channel. The broker and the channel are not modelled; a raw message is a number, and its
-- fields `isAcked` and `isNacked` are the lists of the numbers for which they are set.
pub mod Settling
use marble_js.Base.{
  ℕ, Option, none, some, Bool, true, false, not, ◌&&◌, List, [], ◌∷◌, Text, ◌==◌, any, eqb, or_else,
  find, if◌then◌else◌,
}
use marble_js.Messaging.Transport.{TransportMessage, has_text}

pub record AmqpOptions : Type 0 where
  pub queue : Text
  pub expect_ack : Bool
  pub timeout : Option ℕ

-- what is called on the channel
pub data ChannelCall : Type 0 where
  ack : ℕ → ChannelCall
  nack : ℕ → Bool → ChannelCall
  send_to_queue : Text → TransportMessage → ChannelCall

pub record AmqpConnection : Type 0 where
  pub options : AmqpOptions
  pub acked : List ℕ
  pub nacked : List ℕ
  pub calls : List ChannelCall

-- `connect`: the consumer check, then a new connection; `none` stands for
-- `AmqpCannotSetExpectAckForNonConsumerConnection`
unfoldable pub connect : AmqpOptions → Bool → Option AmqpConnection
connect options is_consumer =
    if not is_consumer && options.expect_ack
    then none
    else some (record { options = options; acked = []; nacked = []; calls = [] })

-- `this.opts.timeout ?? DEFAULT_TIMEOUT`
unfoldable pub timeout_of : ℕ → AmqpOptions → ℕ
timeout_of default_timeout options = or_else options.timeout default_timeout

abbrev pub is_marked : ℕ → List ℕ → Bool
is_marked i marks = any (eqb i) marks

-- The argument of the two is the raw message of `msg`, which may be `undefined`.
unfoldable pub ack_message : Option ℕ → AmqpConnection → AmqpConnection
ack_message none conn = conn
ack_message (some i) conn =
    if conn.options.expect_ack && not (is_marked i conn.acked)
    then record conn { calls = ack i ∷ conn.calls; acked = i ∷ conn.acked }
    else conn

unfoldable pub nack_message : Option ℕ → Bool → AmqpConnection → AmqpConnection
nack_message none resend conn = conn
nack_message (some i) resend conn =
    if conn.options.expect_ack && not (is_marked i conn.nacked)
    then record conn { calls = nack i resend ∷ conn.calls; nacked = i ∷ conn.nacked }
    else conn

-- the result, and the connection after it
unfoldable pub emit_message : Text → TransportMessage → AmqpConnection → Bool × AmqpConnection
emit_message queue msg conn =
    if conn.options.expect_ack && queue == conn.options.queue
    then (false, conn)
    else (true, record conn { calls = send_to_queue queue msg ∷ conn.calls })

-- the message that `sendMessage` sends when it has the reply queue, and the reply that it waits for
unfoldable pub send_message :
    Text → Text → Text → TransportMessage → AmqpConnection → AmqpConnection
send_message queue uuid reply_queue msg conn =
    let request = record msg { reply_to = some reply_queue; correlation_id = some uuid } in
    record conn { calls = send_to_queue queue request ∷ conn.calls }

unfoldable pub reply_of : Text → List TransportMessage → Option TransportMessage
reply_of uuid replies = find (λ raw. has_text uuid raw.correlation_id) replies
