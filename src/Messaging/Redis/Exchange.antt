-- ===== src/Messaging/Redis/Exchange.antt =====
-- A remote call over two connections of packages/messaging/src/transport/strategies/redis.strategy.ts.
use marble_js.Base.{
  ◌≡◌, refl, ◌∙◌, ap, some, Bool, true, false, not, ◌&&◌, List, [], ◌∷◌, ◌++◌, Text, codes, ◌==◌,
  ==_refl, ==_iff, any, keep, append-nil, none, Dict, lookup, insert, erase, lookup-insert,
  Bool-cases, arith, inl, inr,
}
use marble_js.Messaging.Redis.{
  RedisIncomingMsg, RedisConnection, subscribe, unsubscribe, redis_emit, wait_if, redis_send,
  redis_published, settle_calls, rpc_message_unless, rpc_message, consumer_message,
}
use marble_js.Messaging.Redis.Subscriptions.{has, has-append, has-turned}
use marble_js.Messaging.Transport.{TransportMessage, encode_message}
use marble_js.Messaging.Transport.Codec.{HasNoColon, HasNoPair, decode_redis_message-encode_message}

-- what a channel carries for a message with an id
unfoldable pub carried : Text → Text → Text → RedisIncomingMsg
unfolding encode_message
carried target id text = record { channel = target; content = encode_message (some id) text }

any-turned : (d : Text) (xs : List Text) → has d xs ≡ false → any (λ x. d == x) xs ≡ false
any-turned d [] h = refl
any-turned d (x ∷ xs) h = ground (arith, ==_iff d x, ==_iff x d, any-turned d xs)

keep-none : (d : Text) (xs : List Text) → has d xs ≡ false → keep (λ x. d == x) xs ≡ []
keep-none d [] h = refl
keep-none d (x ∷ xs) h = ground (arith, ==_iff d x, ==_iff x d, keep-none d xs)

keep-all : (d : Text) (xs : List Text) → has d xs ≡ false → keep (λ x. not (d == x)) xs ≡ xs
keep-all d [] h = refl
keep-all d (x ∷ xs) h = ground (arith, ==_iff d x, ==_iff x d, keep-all d xs)

unsubscribe-absent : (d : Text) (xs : List Text) → has d xs ≡ false → unsubscribe d xs ≡ xs
unsubscribe-absent d [] h = refl
unsubscribe-absent d (x ∷ xs) h = ground (arith, ==_iff d x, ==_iff x d, unsubscribe-absent d xs)

keep-append : (p : Text → Bool) (xs ys : List Text) → keep p (xs ++ ys) ≡ keep p xs ++ keep p ys
keep-append p [] ys = refl
keep-append p (x ∷ xs) ys = elim (Bool-cases (p x)) [
  | inl is ↦ rw is (ap (λ t. x ∷ t) (keep-append p xs ys))
  | inr other ↦ rw other (keep-append p xs ys)
]

erase-absent : (k : Text) (d : Dict Bool) → lookup k d ≡ none → erase k d ≡ d
unfolding lookup erase
erase-absent k [] h = refl
erase-absent k ((j, w) ∷ d) h = elim (Bool-cases (j == k)) [
  | inl same ↦ let found : some w ≡ none = ground arith in cc
  | inr other ↦ rw other (ap (λ e. (j, w) ∷ e) (erase-absent k d (ground arith)))
]

erase-insert :
    (k : Text) (b : Bool) (d : Dict Bool) → lookup k d ≡ none → erase k (insert k b d) ≡ d
unfolding lookup insert erase
erase-insert k b [] h = rw (==_refl k) refl
erase-insert k b ((j, w) ∷ d) h = elim (Bool-cases (j == k)) [
  | inl same ↦ let found : some w ≡ none = ground arith in cc
  | inr other ↦ rw other (rw other (ap (λ e. (j, w) ∷ e) (erase-insert k b d (ground arith))))
]

-- the publication of a call is answered while nothing else has happened
published-sent :
    (uuid target : Text) (message : TransportMessage) (conn : RedisConnection)
    → lookup uuid conn.publishing ≡ none
    → redis_published uuid (redis_send false false uuid target message conn) ≡ record conn {
      rpc_channels = subscribe uuid conn.rpc_channels;
      pending = conn.pending ++ uuid ∷ [];
      published = conn.published ++ carried target uuid message.data_text ∷ [];
    }
unfolding redis_published redis_send redis_emit wait_if carried
published-sent uuid target message conn new =
    let flies : lookup uuid (insert uuid true conn.publishing) ≡ some true =
      lookup-insert uuid uuid true conn.publishing ∙ rw (==_refl uuid) refl in
    rw flies (rw (erase-insert uuid true conn.publishing new) refl)

-- a message on a channel that no call waits for
lost_answer :
    (b fails : Bool) (msg : RedisIncomingMsg) (conn : RedisConnection)
    → has msg.channel conn.pending ≡ false
    → rpc_message_unless b fails msg conn ≡ conn
unfolding rpc_message_unless settle_calls
lost_answer true fails msg conn fresh = refl
lost_answer false fails msg conn fresh = rw (any-turned msg.channel conn.pending fresh) refl

settle-waiting :
    (uuid text : Text) (conn : RedisConnection) (pending : List Text)
    → has uuid conn.rpc_channels ≡ false
    → has uuid pending ≡ false
    → HasNoColon uuid
    → (uuid == codes "undefined") ≡ false
    → HasNoPair text
    → settle_calls false (carried uuid uuid text) (record conn {
      rpc_channels = subscribe uuid conn.rpc_channels;
      pending = pending ++ uuid ∷ [];
    })
      ≡ record conn {
        pending = pending;
        settled =
            conn.settled
            ++ record {
              reply_channel = uuid;
              response =
                  some
                    (record { data_text = text; reply_to = some uuid; correlation_id = some uuid });
            }
              ∷ [];
      }
unfolding settle_calls carried encode_message
settle-waiting uuid text conn pending unsubscribed fresh no_colon named no_pair =
    let here : (uuid == uuid) ≡ true = ==_refl uuid in
    let waits : any (λ c. uuid == c) (pending ++ uuid ∷ []) ≡ true =
      has-turned uuid (pending ++ uuid ∷ [])
      ∙ has-append uuid pending (uuid ∷ [])
      ∙ rw fresh (rw here refl) in
    let left : keep (λ c. not (uuid == c)) (pending ++ uuid ∷ []) ≡ pending =
      keep-append (λ c. not (uuid == c)) pending (uuid ∷ [])
      ∙ rw here (append-nil _ ∙ keep-all uuid pending fresh) in
    let taken : keep (λ c. uuid == c) (pending ++ uuid ∷ []) ≡ uuid ∷ [] =
      keep-append (λ c. uuid == c) pending (uuid ∷ [])
      ∙ rw here (rw (keep-none uuid pending fresh) refl) in
    let gone : unsubscribe uuid (subscribe uuid conn.rpc_channels) ≡ conn.rpc_channels =
      rw unsubscribed (rw here (unsubscribe-absent uuid conn.rpc_channels unsubscribed)) in
    rw waits (
      rw left (
        rw taken (
          rw gone
            (rw (decode_redis_message-encode_message uuid text no_colon named no_pair) refl))))

-- A remote call over Redis: with an id that is not in use, without colons and not `undefined`, and
-- texts without two colons in a row, the request reaches a listening consumer with the id as its
-- reply channel and its correlation id, and an answer that has the id is published on the reply
-- channel. When that arrives after the publication of the request is answered, it settles the call
-- with the text of the answer, and leaves the producer as it was, but for what it published and
-- settled: no subscription and no waiting call is left, when the unsubscription succeeds. When it
-- arrives before, it is lost: the producer is as without it, with the call still waiting.
pub redis_send-rpc_message :
    (uuid target : Text) (message answer : TransportMessage) (producer consumer : RedisConnection)
    → producer.is_consumer ≡ false
    → has uuid producer.rpc_channels ≡ false
    → has uuid producer.pending ≡ false
    → lookup uuid producer.publishing ≡ none
    → (consumer.is_consumer && consumer.is_listening) ≡ true
    → HasNoColon uuid
    → (uuid == codes "undefined") ≡ false
    → HasNoPair message.data_text
    → HasNoPair answer.data_text
    → answer.correlation_id ≡ some uuid
    → ((redis_send false false uuid target message producer).published
        ≡ producer.published ++ carried target uuid message.data_text ∷ [])
      × ((consumer_message (carried target uuid message.data_text) consumer).consumed
          ≡ consumer.consumed
            ++ some (record {
              data_text = message.data_text;
              reply_to = some uuid;
              correlation_id = some uuid;
            })
              ∷ [])
      × ((redis_emit false uuid answer consumer).0.published
          ≡ consumer.published ++ carried uuid uuid answer.data_text ∷ [])
      × (rpc_message false
            (carried uuid uuid answer.data_text)
            (redis_published uuid (redis_send false false uuid target message producer))
          ≡ record producer {
            published = producer.published ++ carried target uuid message.data_text ∷ [];
            settled =
                producer.settled
                ++ record {
                  reply_channel = uuid;
                  response = some (record {
                    data_text = answer.data_text;
                    reply_to = some uuid;
                    correlation_id = some uuid;
                  });
                }
                  ∷ [];
          })
      × (redis_published uuid (
            rpc_message false
              (carried uuid uuid answer.data_text)
              (redis_send false false uuid target message producer))
          ≡ record producer {
            rpc_channels = subscribe uuid producer.rpc_channels;
            pending = producer.pending ++ uuid ∷ [];
            published = producer.published ++ carried target uuid message.data_text ∷ [];
          })
unfolding redis_send redis_emit consumer_message rpc_message carried
redis_send-rpc_message uuid target message answer producer consumer sends unsubscribed fresh new
      consumes no_colon named no_pair no_pair_back identified =
    let response = carried uuid uuid answer.data_text in
    let awaiting = published-sent uuid target message producer new in
    (
      refl,
      rw consumes (
          rw (decode_redis_message-encode_message uuid message.data_text no_colon named no_pair)
            refl),
      rw identified refl,
      ap (rpc_message false response) awaiting
          ∙ ap
              (λ b. rpc_message_unless b false response (record producer {
                rpc_channels = subscribe uuid producer.rpc_channels;
                pending = producer.pending ++ uuid ∷ [];
                published = producer.published ++ carried target uuid message.data_text ∷ [];
              }))
              sends
          ∙ settle-waiting uuid answer.data_text
              (record producer {
                published = producer.published ++ carried target uuid message.data_text ∷ [];
              })
              producer.pending unsubscribed fresh no_colon named no_pair_back,
      ap (redis_published uuid) (
            lost_answer producer.is_consumer false response
              (redis_send false false uuid target message producer) fresh)
          ∙ awaiting,
    )
