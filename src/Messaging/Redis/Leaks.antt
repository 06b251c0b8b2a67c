-- ===== src/Messaging/Redis/Leaks.antt =====
-- A failed publication of packages/messaging/src/transport/strategies/redis.strategy.ts.
use marble_js.Base.{
  ◌≡◌, refl, ap, sym, ◌∙◌, inl, inr, Bool, true, false, List, [], ◌∷◌, Text, ◌==◌, ==_sound,
  ==_refl, any, Bool-cases, some, lookup, lookup-insert, if◌then◌else◌,
}
use marble_js.Messaging.Redis.{
  RedisIncomingMsg, RedisConnection, unsubscribe, redis_emit, wait_if, redis_send, redis_published,
  settle_calls, rpc_message_unless, rpc_message,
}
use marble_js.Messaging.Redis.Subscriptions.{
  has, has-subscribe, has-unsubscribe, has-settle, has-turned,
}
use marble_js.Messaging.Transport.{TransportMessage}

other-channel :
    (c m : Text) (xs : List Text)
    → has c xs ≡ false
    → any (λ d. m == d) xs ≡ true
    → (m == c) ≡ false
other-channel c m xs out waits = elim (Bool-cases (m == c)) [
  | inl same ↦
      let found : has c xs ≡ true = rw (← ==_sound m c same) (sym (has-turned m xs) ∙ waits) in cc
  | inr other ↦ other
]

-- messages of the RPC subscriber, each with whether the unsubscription that it leads to fails
unfoldable pub rpc_messages : List (Bool × RedisIncomingMsg) → RedisConnection → RedisConnection
unfolding rpc_message
rpc_messages [] conn = conn
rpc_messages ((fails, msg) ∷ msgs) conn = rpc_messages msgs (rpc_message fails msg conn)

-- What is subscribed without a call stays so.
unfoldable pub IsLeaked : Text → RedisConnection → Type 0
IsLeaked c conn = (has c conn.rpc_channels ≡ true) × (has c conn.pending ≡ false)

settle-IsLeaked :
    (c : Text) (fails : Bool) (msg : RedisIncomingMsg) (conn : RedisConnection)
    → IsLeaked c conn
    → IsLeaked c (settle_calls fails msg conn)
unfolding settle_calls IsLeaked
settle-IsLeaked c fails msg conn (is_in, out) =
    elim (Bool-cases (any (λ d. msg.channel == d) conn.pending)) [
      | inl waits ↦
          let other = other-channel c msg.channel conn.pending out waits in
          rw waits (kept fails other, has-settle c msg.channel conn.pending ∙ rw out refl)
      | inr none_waits ↦ rw none_waits (is_in, out)
    ]
  where
    kept :
        (b : Bool)
        → (msg.channel == c) ≡ false
        → has c (if b then conn.rpc_channels else unsubscribe msg.channel conn.rpc_channels) ≡ true
    kept true other = is_in
    kept false other = has-unsubscribe c msg.channel conn.rpc_channels ∙ rw is_in (rw other refl)

rpc-IsLeaked :
    (c : Text) (b fails : Bool) (msg : RedisIncomingMsg) (conn : RedisConnection)
    → IsLeaked c conn
    → IsLeaked c (rpc_message_unless b fails msg conn)
unfolding rpc_message_unless
rpc-IsLeaked c true fails msg conn h = h
rpc-IsLeaked c false fails msg conn h = settle-IsLeaked c fails msg conn h

rpc_messages-IsLeaked :
    (c : Text) (msgs : List (Bool × RedisIncomingMsg)) (conn : RedisConnection)
    → IsLeaked c conn
    → IsLeaked c (rpc_messages msgs conn)
unfolding rpc_messages rpc_message
rpc_messages-IsLeaked c [] conn h = h
rpc_messages-IsLeaked c ((fails, msg) ∷ msgs) conn h =
    rpc_messages-IsLeaked c msgs _ (rpc-IsLeaked c conn.is_consumer fails msg conn h)

publishing-rpc_message :
    (b fails : Bool) (msg : RedisIncomingMsg) (conn : RedisConnection)
    → (rpc_message_unless b fails msg conn).publishing ≡ conn.publishing
unfolding rpc_message_unless settle_calls
publishing-rpc_message true fails msg conn = refl
publishing-rpc_message false fails msg conn =
    elim (Bool-cases (any (λ d. msg.channel == d) conn.pending)) [
      | inl waits ↦ rw waits refl
      | inr none_waits ↦ rw none_waits refl
    ]

publishing-rpc_messages :
    (msgs : List (Bool × RedisIncomingMsg)) (conn : RedisConnection)
    → (rpc_messages msgs conn).publishing ≡ conn.publishing
unfolding rpc_messages rpc_message
publishing-rpc_messages [] conn = refl
publishing-rpc_messages ((fails, msg) ∷ msgs) conn =
    publishing-rpc_messages msgs _ ∙ publishing-rpc_message conn.is_consumer fails msg conn

-- After a call whose publication fails, with an id that no call waits for, the RPC subscriber stays
-- subscribed to the reply channel, whatever messages arrive before and after the publication is
-- answered, and no call waits for it.
pub redis_send-publish_fails :
    (uuid target : Text) (msg : TransportMessage) (conn : RedisConnection)
    (before after : List (Bool × RedisIncomingMsg))
    → has uuid conn.pending ≡ false
    → IsLeaked uuid (
        rpc_messages after
          (redis_published uuid (rpc_messages before (redis_send false true uuid target msg conn))))
unfolding redis_send redis_emit redis_published wait_if IsLeaked
redis_send-publish_fails uuid target msg conn before after fresh =
    let sent = redis_send false true uuid target msg conn in
    let leaked =
      rpc_messages-IsLeaked uuid before sent
        (has-subscribe uuid uuid conn.rpc_channels ∙ rw (==_refl uuid) refl, fresh) in
    let waiting : lookup uuid (rpc_messages before sent).publishing ≡ some false =
      ap (lookup uuid) (publishing-rpc_messages before sent)
      ∙ lookup-insert uuid uuid false conn.publishing
      ∙ rw (==_refl uuid) refl in
    rpc_messages-IsLeaked uuid after _ (rw waiting leaked)
