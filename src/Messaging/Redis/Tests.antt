-- ===== src/Messaging/Redis/Tests.antt =====
-- Connections of packages/messaging/src/transport/strategies/redis.strategy.ts on concrete messages.
use marble_js.Base.{
  ◌≡◌, refl, none, some, true, false, [], ◌∷◌, ◌++◌, Text, codes, ◌==◌, lookup, insert,
}
use marble_js.Messaging.Redis.{
  RedisOptions, redis_connect, redis_emit, redis_send, redis_published, wait_if, rpc_message,
  consumer_message,
}
use marble_js.Messaging.Redis.Exchange.{carried, redis_send-rpc_message}
use marble_js.Messaging.Redis.Leaks.{rpc_messages, IsLeaked, redis_send-publish_fails}
use marble_js.Messaging.Redis.Subscriptions.{
  has, Reachable, connects, sends, publishes, Reachable-rpc_channels,
}
use marble_js.Messaging.Transport.{TransportMessage}

abbrev options : RedisOptions
options = record { channel = codes "ch"; timeout = none }

abbrev request : TransportMessage
request = record { data_text = codes "{}"; reply_to = none; correlation_id = none }

abbrev answer : TransportMessage
answer = record { data_text = codes "1"; reply_to = none; correlation_id = some (codes "id") }

-- a call whose publication is answered, and the channel that it waits for
waiting : Reachable (
    redis_published
      (codes "id")
      (redis_send false false (codes "id") (codes "ch") request (redis_connect none options)))
unfolding redis_connect lookup
waiting =
    publishes (codes "id")
      (sends false false (codes "id") (codes "ch") request refl refl (connects none options))

Reachable-rpc_channels_example :
    has
      (codes "id")
      (redis_published (codes "id") (
        redis_send false false
          (codes "id")
          (codes "ch")
          request
          (redis_connect none options))).rpc_channels
    ≡ true
unfolding redis_connect redis_published redis_send redis_emit wait_if lookup insert ◌==◌
Reachable-rpc_channels_example = Reachable-rpc_channels (codes "id") waiting refl

redis_send-publish_fails_example : IsLeaked (codes "id") (
    rpc_messages ((true, carried (codes "id") (codes "id") (codes "1")) ∷ []) (
      redis_published (codes "id") (
        rpc_messages
          ((false, carried (codes "id") (codes "id") (codes "1")) ∷ [])
          (redis_send false true (codes "id") (codes "ch") request (redis_connect none options)))))
unfolding redis_connect
redis_send-publish_fails_example =
    redis_send-publish_fails (codes "id") (codes "ch") request (redis_connect none options)
      ((false, carried (codes "id") (codes "id") (codes "1")) ∷ [])
      ((true, carried (codes "id") (codes "id") (codes "1")) ∷ []) refl

abbrev target : Text
target = codes "ch"

abbrev id : Text
id = codes "id"

redis_send-rpc_message_example :
    ((redis_send false false id target request (redis_connect (some false) options)).published
      ≡ (redis_connect (some false) options).published ++ carried target id (codes "{}") ∷ [])
    × ((consumer_message
          (carried target id (codes "{}"))
          (redis_connect (some true) options)).consumed
        ≡ (redis_connect (some true) options).consumed
          ++ some (record { data_text = codes "{}"; reply_to = some id; correlation_id = some id })
            ∷ [])
    × ((redis_emit false id answer (redis_connect (some true) options)).0.published
        ≡ (redis_connect (some true) options).published ++ carried id id (codes "1") ∷ [])
    × (rpc_message false (carried id id (codes "1")) (
          redis_published id
            (redis_send false false id target request (redis_connect (some false) options)))
        ≡ record (redis_connect (some false) options) {
          published =
              (redis_connect (some false) options).published ++ carried target id (codes "{}") ∷ [];
          settled =
              (redis_connect (some false) options).settled
              ++ record {
                reply_channel = id;
                response = some (record {
                  data_text = codes "1";
                  reply_to = some id;
                  correlation_id = some id;
                });
              }
                ∷ [];
        })
    × (redis_published id (
          rpc_message false
            (carried id id (codes "1"))
            (redis_send false false id target request (redis_connect (some false) options)))
        ≡ record (redis_connect (some false) options) {
          rpc_channels = id ∷ [];
          pending = id ∷ [];
          published =
              (redis_connect (some false) options).published ++ carried target id (codes "{}") ∷ [];
        })
unfolding redis_connect lookup ◌==◌
redis_send-rpc_message_example =
    redis_send-rpc_message id target request answer (redis_connect (some false) options)
      (redis_connect (some true) options) refl refl refl refl refl (refl, (refl, tt)) refl
      (refl, tt) tt refl
