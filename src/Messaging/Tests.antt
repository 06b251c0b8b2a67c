-- ===== src/Messaging/Tests.antt =====
-- Events, replies and messages of packages/messaging/src on concrete values.
use marble_js.Base.{ℕ, ◌≡◌, ◌≤◌, refl, none, some, true, false, [], ◌∷◌, Text, codes, lookup, ◌==◌}
use marble_js.Messaging.Amqp.{
  AmqpOptions, AmqpConnection, ack, nack, connect, ack_message, nack_message,
}
use marble_js.Messaging.Amqp.Settling.{
  acks, nacks, run, run_call, is_ack_of, is_nack_of, count, count-run,
}
use marble_js.Messaging.Timers.{
  EventMetadata, MetaEvent, TimerState, correlation_id_of, ack_message as ack_call,
  nack_message as nack_call, ack_event, reject_unhandled, initial,
}
use marble_js.Messaging.Timers.Pending.{start, arrive, ack_event-reject_unhandled}
use marble_js.Messaging.Transport.{
  TransportMessage, encode_message, decode_redis_message, LocalConnection,
}
use marble_js.Messaging.Transport.Codec.{decode_redis_message-encode_message}

abbrev event : MetaEvent ℕ
event = record {
  event_type = codes "E";
  metadata = some (record { raw = some 3; correlation_id = some (codes "id"); reply_to = none });
}

abbrev bare : MetaEvent ℕ
bare = record { event_type = codes "B"; metadata = none }

abbrev arrived : TimerState ℕ
arrived = reject_unhandled true bare initial

ack_event-reject_unhandled_example :
    ((ack_event event (reject_unhandled true event arrived)).1.pending ≡ arrived.pending)
    × ((j : Text)
        → lookup j (ack_event event (reject_unhandled true event arrived)).1.store
          ≡ lookup j arrived.store)
    × ((ack_event event (reject_unhandled true event arrived)).1.calls
        ≡ ack_call (some 3) ∷ nack_call (some 3) false ∷ arrived.calls)
unfolding reject_unhandled marble_js.Messaging.Timers.handle_event_rejection
    marble_js.Messaging.Timers.register marble_js.Messaging.Timers.register_key lookup
ack_event-reject_unhandled_example =
    ack_event-reject_unhandled b'i' (codes "d") event (arrive true bare start) refl refl

decode_redis_message-encode_message_example :
    decode_redis_message (encode_message (some (codes "id")) (codes "{}"))
    ≡ some (record {
      data_text = codes "{}";
      reply_to = some (codes "id");
      correlation_id = some (codes "id");
    })
unfolding ◌==◌
decode_redis_message-encode_message_example =
    decode_redis_message-encode_message (codes "id") (codes "{}") (refl, (refl, tt)) refl (refl, tt)

abbrev message : Text → TransportMessage
message id = record { data_text = codes "{}"; reply_to = some id; correlation_id = some id }

abbrev connection : LocalConnection
connection = record {
  channel = codes "bus";
  rpc_subject = message (codes "old") ∷ [];
  msg_subject = [];
}

abbrev amqp_options : AmqpOptions
amqp_options = record { queue = codes "q"; expect_ack = true; timeout = none }

abbrev amqp_connection : AmqpConnection
amqp_connection = record { options = amqp_options; acked = []; nacked = []; calls = [] }

-- an acknowledged message is still rejected
run_tests :
    (run (acks 7 ∷ nacks 7 false ∷ acks 7 ∷ []) amqp_connection).calls ≡ nack 7 false ∷ ack 7 ∷ []
unfolding run run_call ack_message nack_message
run_tests = refl

count-run_example :
    (count (is_ack_of 7) (run (acks 7 ∷ nacks 7 false ∷ acks 7 ∷ []) amqp_connection).calls ≤ 1)
    × (count (is_nack_of 7) (run (acks 7 ∷ nacks 7 false ∷ acks 7 ∷ []) amqp_connection).calls ≤ 1)
unfolding connect
count-run_example =
    count-run 7 amqp_options true amqp_connection (acks 7 ∷ nacks 7 false ∷ acks 7 ∷ []) refl
