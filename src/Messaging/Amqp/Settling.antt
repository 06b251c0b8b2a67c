-- ===== src/Messaging/Amqp/Settling.antt =====
-- How often the connection of packages/messaging/src/transport/strategies/amqp.strategy.ts settles a
-- message.
use marble_js.Base.{
  ℕ, suc, ◌≤◌, ◌≡◌, refl, ap, Option, none, some, Bool, true, false, not, ◌&&◌, ◌||◌, List, [], ◌∷◌,
  Text, ◌==◌, eqb, eqb_iff, Bool-cases, inl, inr, if◌then◌else◌, arith,
}
use marble_js.Messaging.Transport.{TransportMessage}
use marble_js.Messaging.Amqp.{
  AmqpOptions, ChannelCall, ack, nack, AmqpConnection, is_marked, ack_message, nack_message,
  emit_message, connect,
}

-- the calls of a client on a connection
pub data ConnectionCall : Type 0 where
  acks : ℕ → ConnectionCall
  nacks : ℕ → Bool → ConnectionCall
  emits : Text → TransportMessage → ConnectionCall

unfoldable pub run_call : ConnectionCall → AmqpConnection → AmqpConnection
unfolding emit_message
run_call (acks i) conn = ack_message (some i) conn
run_call (nacks i resend) conn = nack_message (some i) resend conn
run_call (emits queue msg) conn = (emit_message queue msg conn).1

unfoldable pub run : List ConnectionCall → AmqpConnection → AmqpConnection
run [] conn = conn
run (x ∷ xs) conn = run xs (run_call x conn)

abbrev pub is_ack_of : ℕ → ChannelCall → Bool
is_ack_of i (ack j) = eqb i j
is_ack_of i _ = false

abbrev pub is_nack_of : ℕ → ChannelCall → Bool
is_nack_of i (nack j resend) = eqb i j
is_nack_of i _ = false

unfoldable pub count : (ChannelCall → Bool) → List ChannelCall → ℕ
count p [] = 0
count p (x ∷ xs) = if p x then suc (count p xs) else count p xs

-- one call when the mark is set, none when it is not
abbrev Settled : ℕ → AmqpConnection → Type 0
Settled i conn =
    (count (is_ack_of i) conn.calls ≡ (if is_marked i conn.acked then 1 else 0))
    × (count (is_nack_of i) conn.calls ≡ (if is_marked i conn.nacked then 1 else 0))

counted_new : (b m : Bool) (n : ℕ) → n ≡ (if m then 1 else 0) → (b && not m) ≡ true → suc n ≡ 1
counted_new true true n h new = cc
counted_new true false n h new = ap suc h
counted_new false m n h new = cc

counted :
    (i j : ℕ) (marks : List ℕ) (b : Bool) (n : ℕ)
    → n ≡ (if is_marked i marks then 1 else 0)
    → (b && not (is_marked j marks)) ≡ true
    → (if eqb i j then suc n else n) ≡ (if eqb i j || is_marked i marks then 1 else 0)
counted i j marks b n h new = elim (Bool-cases (eqb i j)) [
  | inl same ↦ rw same (counted_new b (is_marked j marks) n (rw ((eqb_iff i j).0 same) at h) new)
  | inr other ↦ rw other h
]

Settled-ack_message :
    (i j : ℕ) (conn : AmqpConnection) → Settled i conn → Settled i (ack_message (some j) conn)
unfolding ack_message count
Settled-ack_message i j conn h =
    elim (Bool-cases (conn.options.expect_ack && not (is_marked j conn.acked))) [
      | inl new ↦ rw new (
        counted i j conn.acked conn.options.expect_ack (count (is_ack_of i) conn.calls) h.0 new,
        h.1,
      )
      | inr old ↦ rw old h
    ]

Settled-nack_message :
    (i j : ℕ) (resend : Bool) (conn : AmqpConnection)
    → Settled i conn
    → Settled i (nack_message (some j) resend conn)
unfolding nack_message count
Settled-nack_message i j resend conn h =
    elim (Bool-cases (conn.options.expect_ack && not (is_marked j conn.nacked))) [
      | inl new ↦ rw new (
        h.0,
        counted i j conn.nacked conn.options.expect_ack (count (is_nack_of i) conn.calls) h.1 new,
      )
      | inr old ↦ rw old h
    ]

Settled-emit_message :
    (i : ℕ) (queue : Text) (msg : TransportMessage) (conn : AmqpConnection)
    → Settled i conn
    → Settled i (emit_message queue msg conn).1
unfolding emit_message count
Settled-emit_message i queue msg conn h =
    elim (Bool-cases (conn.options.expect_ack && queue == conn.options.queue)) [
      | inl own ↦ rw own h
      | inr other ↦ rw other h
    ]

Settled-run :
    (i : ℕ) (xs : List ConnectionCall) (conn : AmqpConnection)
    → Settled i conn
    → Settled i (run xs conn)
unfolding run run_call
Settled-run i [] conn h = h
Settled-run i (acks j ∷ xs) conn h =
    Settled-run i xs (ack_message (some j) conn) (Settled-ack_message i j conn h)
Settled-run i (nacks j resend ∷ xs) conn h =
    Settled-run i xs (nack_message (some j) resend conn) (Settled-nack_message i j resend conn h)
Settled-run i (emits queue msg ∷ xs) conn h =
    Settled-run i xs (emit_message queue msg conn).1 (Settled-emit_message i queue msg conn h)

at_most_one : (n : ℕ) (b : Bool) → n ≡ (if b then 1 else 0) → n ≤ 1
at_most_one n true h = omega arith
at_most_one n false h = omega arith

abbrev SettledIf : ℕ → Option AmqpConnection → Type 0
SettledIf i none = Unit
SettledIf i (some conn) = Settled i conn

SettledIf-connect :
    (i : ℕ) (options : AmqpOptions) (is_consumer : Bool) → SettledIf i (connect options is_consumer)
unfolding connect count
SettledIf-connect i options is_consumer =
    elim (Bool-cases (not is_consumer && options.expect_ack)) [
      | inl refused ↦ rw refused tt
      | inr accepted ↦ rw accepted (refl, refl)
    ]

-- On a new connection, whatever is acknowledged, rejected and emitted in whichever order, the channel
-- is asked at most once to acknowledge a message, and at most once to reject it.
pub count-run :
    (i : ℕ) (options : AmqpOptions) (is_consumer : Bool) (conn : AmqpConnection)
    (xs : List ConnectionCall)
    → connect options is_consumer ≡ some conn
    → (count (is_ack_of i) (run xs conn).calls ≤ 1) × (count (is_nack_of i) (run xs conn).calls ≤ 1)
count-run i options is_consumer conn xs h =
    let settled = Settled-run i xs conn (rw h at (SettledIf-connect i options is_consumer)) in
    (
      at_most_one (count (is_ack_of i) (run xs conn).calls) (is_marked i (run xs conn).acked)
          settled.0,
      at_most_one (count (is_nack_of i) (run xs conn).calls) (is_marked i (run xs conn).nacked)
          settled.1,
    )
