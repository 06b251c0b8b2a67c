-- ===== src/Messaging/Redis/Subscriptions.antt =====
-- The reply channels of packages/messaging/src/transport/strategies/redis.strategy.ts.
use marble_js.Base.{
  ◌≡◌, refl, ap, sym, ◌∙◌, inl, inr, Option, Bool, true, false, not, ◌||◌, ◌&&◌, List, [], ◌∷◌,
  ◌++◌, Text, ◌==◌, ==_iff, ==_sound, any, keep, Bool-cases, arith, is_some, none, some, Dict,
  lookup, insert, erase, lookup-insert, lookup-erase, if◌then◌else◌,
}
use marble_js.Messaging.Redis.{
  RedisOptions, RedisIncomingMsg, RedisConnection, subscribe, unsubscribe, redis_connect,
  redis_emit, wait_if, redis_send, redis_published, settle_calls, rpc_message_unless, rpc_message,
  consumer_message,
}
use marble_js.Messaging.Transport.{TransportMessage}

abbrev pub has : Text → List Text → Bool
has c channels = any (λ d. d == c) channels

pub has-append : (c : Text) (xs ys : List Text) → has c (xs ++ ys) ≡ (has c xs || has c ys)
has-append c [] ys = refl
has-append c (x ∷ xs) ys = ground (arith, has-append c xs ys)

pub has-subscribe : (c d : Text) (xs : List Text) → has c (subscribe d xs) ≡ (d == c || has c xs)
has-subscribe c d xs = elim (Bool-cases (has d xs)) [
  | inl is ↦ elim (Bool-cases (d == c)) [
    | inl same ↦ rw is (rw same (rw (← ==_sound d c same) is))
    | inr other ↦ rw is (rw other refl)
  ]
  | inr new ↦ rw new refl
]

pub has-unsubscribe :
    (c d : Text) (xs : List Text) → has c (unsubscribe d xs) ≡ (has c xs && not (d == c))
has-unsubscribe c d [] = refl
has-unsubscribe c d (x ∷ xs) =
    ground (arith, ==_iff x d, ==_iff x c, ==_iff d c, has-unsubscribe c d xs)

-- the waiting calls are matched with the channel on the other side
pub has-settle :
    (c d : Text) (xs : List Text) → has c (keep (λ x. not (d == x)) xs) ≡ (has c xs && not (d == c))
has-settle c d [] = refl
has-settle c d (x ∷ xs) = ground (arith, ==_iff d x, ==_iff x c, ==_iff d c, has-settle c d xs)

pub has-turned : (d : Text) (xs : List Text) → any (λ x. d == x) xs ≡ has d xs
has-turned d [] = refl
has-turned d (x ∷ xs) = ground (arith, ==_iff d x, ==_iff x d, has-turned d xs)

-- whether a call awaits its publication
abbrev pub in_flight : Text → RedisConnection → Bool
in_flight c conn = is_some (lookup c conn.publishing)

-- The states of a connection until it is closed, when each call draws an id that no call has that
-- is not settled; subscriptions, publications and unsubscriptions may fail.
pub data Reachable : RedisConnection → Type 0 where
  connects :
      (is_consumer : Option Bool) (options : RedisOptions)
      → Reachable (redis_connect is_consumer options)
  sends :
      {conn : RedisConnection} (subscribe_fails publish_fails : Bool) (uuid target : Text)
      (msg : TransportMessage)
      → in_flight uuid conn ≡ false
      → has uuid conn.pending ≡ false
      → Reachable conn
      → Reachable (redis_send subscribe_fails publish_fails uuid target msg conn)
  publishes :
      {conn : RedisConnection} (uuid : Text)
      → Reachable conn
      → Reachable (redis_published uuid conn)
  emits :
      {conn : RedisConnection} (fails : Bool) (target : Text) (msg : TransportMessage)
      → Reachable conn
      → Reachable (redis_emit fails target msg conn).0
  gets_answer :
      {conn : RedisConnection} (fails : Bool) (msg : RedisIncomingMsg)
      → Reachable conn
      → Reachable (rpc_message fails msg conn)
  gets_request :
      {conn : RedisConnection} (msg : RedisIncomingMsg)
      → Reachable conn
      → Reachable (consumer_message msg conn)

is_some-insert :
    (c u : Text) (b : Bool) (d : Dict Bool)
    → is_some (lookup c (insert u b d)) ≡ (u == c || is_some (lookup c d))
is_some-insert c u b d = elim (Bool-cases (u == c)) [
  | inl same ↦ rw (lookup-insert u c b d) (rw same refl)
  | inr other ↦ rw (lookup-insert u c b d) (rw other refl)
]

is_some-erase :
    (c u : Text) (d : Dict Bool)
    → is_some (lookup c (erase u d)) ≡ (is_some (lookup c d) && not (u == c))
is_some-erase c u d = elim (Bool-cases (u == c)) [
  | inl same ↦ rw (lookup-erase u c d) (rw same (ground arith))
  | inr other ↦ rw (lookup-erase u c d) (rw other (ground arith))
]

-- A call that awaits its publication, or its answer, is subscribed, and awaits only one of them.
abbrev pub AreTracked : Text → List Text → Dict Bool → List Text → Type 0
AreTracked c pending publishing channels =
    (((has c pending || is_some (lookup c publishing)) && not (has c channels)) ≡ false)
    × ((has c pending && is_some (lookup c publishing)) ≡ false)

abbrev pub IsTracked : Text → RedisConnection → Type 0
IsTracked c conn = AreTracked c conn.pending conn.publishing conn.rpc_channels

has-same : (c u : Text) (xs : List Text) → (u == c) ≡ true → has c xs ≡ has u xs
has-same c u xs same = ap (λ t. has t xs) (sym (==_sound u c same))

insert-AreTracked :
    (c u : Text) (b : Bool) (pending : List Text) (publishing : Dict Bool) (channels : List Text)
    → has u pending ≡ false
    → AreTracked c pending publishing channels
    → AreTracked c pending (insert u b publishing) (subscribe u channels)
insert-AreTracked c u b pending publishing channels fresh h = rw (has-subscribe c u channels) (
    rw (is_some-insert c u b publishing) (elim (Bool-cases (u == c)) [
      | inl same ↦
          let out : has c pending ≡ false = has-same c u pending same ∙ fresh in
          rw same (rw out (refl, refl))
      | inr other ↦ rw other h
    ]))

erase-AreTracked :
    (c u : Text) (pending : List Text) (publishing : Dict Bool) (channels : List Text)
    → AreTracked c pending publishing channels
    → AreTracked c pending (erase u publishing) channels
erase-AreTracked c u pending publishing channels h =
    rw (is_some-erase c u publishing) (ground (arith, h.0), ground (arith, h.1))

move-AreTracked :
    (c u : Text) (pending : List Text) (publishing : Dict Bool) (channels : List Text)
    → is_some (lookup u publishing) ≡ true
    → AreTracked c pending publishing channels
    → AreTracked c (pending ++ u ∷ []) (erase u publishing) channels
move-AreTracked c u pending publishing channels flies h = rw (is_some-erase c u publishing) (
    rw (has-append c pending (u ∷ [])) (elim (Bool-cases (u == c)) [
      | inl same ↦
          let is_in : is_some (lookup c publishing) ≡ true =
            ap (λ t. is_some (lookup t publishing)) (sym (==_sound u c same)) ∙ flies in
          rw same (ground (arith, h.0, is_in), ground arith)
      | inr other ↦ rw other (ground (arith, h.0), ground (arith, h.1))
    ]))

settle-AreTracked :
    (c m : Text) (fails : Bool) (pending : List Text) (publishing : Dict Bool)
    (channels : List Text)
    → has m pending ≡ true
    → AreTracked c pending publishing channels
    → AreTracked c
        (keep (λ d. not (m == d)) pending)
        publishing
        (if fails then channels else unsubscribe m channels)
settle-AreTracked c m true pending publishing channels waits h =
    rw (has-settle c m pending) (ground (arith, h.0), ground (arith, h.1))
settle-AreTracked c m false pending publishing channels waits h = rw (has-settle c m pending) (
    rw (has-unsubscribe c m channels) (elim (Bool-cases (m == c)) [
      | inl same ↦
          let is_in : has c pending ≡ true = has-same c m pending same ∙ waits in
          rw same (ground (arith, h.1, is_in), ground (arith, h.1, is_in))
      | inr other ↦ rw other (ground (arith, h.0), ground (arith, h.1))
    ]))

send-IsTracked :
    (c : Text) (subscribe_fails publish_fails : Bool) (uuid target : Text) (msg : TransportMessage)
    (conn : RedisConnection)
    → has uuid conn.pending ≡ false
    → IsTracked c conn
    → IsTracked c (redis_send subscribe_fails publish_fails uuid target msg conn)
unfolding redis_send redis_emit
send-IsTracked c true publish_fails uuid target msg conn fresh h = h
send-IsTracked c false true uuid target msg conn fresh h =
    insert-AreTracked c uuid false conn.pending conn.publishing conn.rpc_channels fresh h
send-IsTracked c false false uuid target msg conn fresh h =
    insert-AreTracked c uuid true conn.pending conn.publishing conn.rpc_channels fresh h

wait-IsTracked :
    (c : Text) (o : Option Bool) (uuid : Text) (conn : RedisConnection)
    → lookup uuid conn.publishing ≡ o
    → IsTracked c conn
    → IsTracked c (wait_if o uuid conn)
unfolding wait_if
wait-IsTracked c none uuid conn e h = h
wait-IsTracked c (some false) uuid conn e h =
    erase-AreTracked c uuid conn.pending conn.publishing conn.rpc_channels h
wait-IsTracked c (some true) uuid conn e h =
    move-AreTracked c uuid conn.pending conn.publishing conn.rpc_channels (ap is_some e) h

settle-IsTracked :
    (c : Text) (fails : Bool) (msg : RedisIncomingMsg) (conn : RedisConnection)
    → IsTracked c conn
    → IsTracked c (settle_calls fails msg conn)
unfolding settle_calls
settle-IsTracked c fails msg conn h = elim (Bool-cases (any (λ d. msg.channel == d) conn.pending)) [
  | inl waits ↦ rw waits (
      settle-AreTracked c msg.channel fails conn.pending conn.publishing conn.rpc_channels
        (sym (has-turned msg.channel conn.pending) ∙ waits) h)
  | inr none_waits ↦ rw none_waits h
]

rpc-IsTracked :
    (c : Text) (b fails : Bool) (msg : RedisIncomingMsg) (conn : RedisConnection)
    → IsTracked c conn
    → IsTracked c (rpc_message_unless b fails msg conn)
unfolding rpc_message_unless
rpc-IsTracked c true fails msg conn h = h
rpc-IsTracked c false fails msg conn h = settle-IsTracked c fails msg conn h

emit-IsTracked :
    (c : Text) (fails : Bool) (target : Text) (msg : TransportMessage) (conn : RedisConnection)
    → IsTracked c conn
    → IsTracked c (redis_emit fails target msg conn).0
unfolding redis_emit
emit-IsTracked c true target msg conn h = h
emit-IsTracked c false target msg conn h = h

Reachable-IsTracked : (c : Text) {conn : RedisConnection} → Reachable conn → IsTracked c conn
unfolding redis_connect redis_published rpc_message consumer_message lookup
Reachable-IsTracked c (connects is_consumer options) = (refl, refl)
Reachable-IsTracked c (sends {conn} subscribe_fails publish_fails uuid target msg new fresh r) =
    send-IsTracked c subscribe_fails publish_fails uuid target msg conn fresh
      (Reachable-IsTracked c r)
Reachable-IsTracked c (publishes {conn} uuid r) =
    wait-IsTracked c (lookup uuid conn.publishing) uuid conn refl (Reachable-IsTracked c r)
Reachable-IsTracked c (emits {conn} fails target msg r) =
    emit-IsTracked c fails target msg conn (Reachable-IsTracked c r)
Reachable-IsTracked c (gets_answer {conn} fails msg r) =
    rpc-IsTracked c conn.is_consumer fails msg conn (Reachable-IsTracked c r)
Reachable-IsTracked c (gets_request {conn} msg r) =
    elim (Bool-cases (conn.is_consumer && conn.is_listening)) [
      | inl is ↦ rw is (Reachable-IsTracked c r)
      | inr other ↦ rw other (Reachable-IsTracked c r)
    ]

-- Until a connection is closed, and when each call draws an id that no call has that is not settled,
-- a call that awaits its publication or its answer has its reply channel subscribed, whichever
-- subscriptions, publications and unsubscriptions fail and whatever messages arrive.
pub Reachable-rpc_channels :
    {conn : RedisConnection} (c : Text)
    → Reachable conn
    → (has c conn.pending || in_flight c conn) ≡ true
    → has c conn.rpc_channels ≡ true
Reachable-rpc_channels c r awaits =
    let tracked = Reachable-IsTracked c r in ground (arith, awaits, tracked.0)
