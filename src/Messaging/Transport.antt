-- ===== src/Messaging/Transport.antt =====
-- packages/messaging/src/reply, packages/messaging/src/transport/transport.transformer.ts,
-- strategies/redis.strategy.helper.ts and strategies/local.strategy.ts. Buffers are read as the
-- texts that they encode; the codec of events is a parameter.
pub mod Codec
pub mod Calls
use marble_js.Base.{
  ℕ, Option, none, some, Bool, true, false, not, ◌&&◌, ◌||◌, List, [], ◌∷◌, ◌++◌, Text, codes, ◌==◌,
  eqb, find, or_else, or_option, if◌then◌else◌,
}
use marble_js.Core.Events.{Event}
use marble_js.Messaging.Timers.{EventMetadata, MetaEvent}

-- `TransportMessage`
pub record TransportMessage : Type 0 where
  pub data_text : Text
  pub reply_to : Option Text
  pub correlation_id : Option Text

-- redis.strategy.helper.ts: `${uuid}::${message.toString()}`
unfoldable pub encode_message : Option Text → Text → Text
encode_message uuid message = or_else uuid (codes "undefined") ++ codes "::" ++ message

-- `message.split('::')`: the first piece, and what follows the separator
unfoldable pub first_piece : Text → Text
first_piece [] = []
first_piece (c ∷ []) = c ∷ []
first_piece (c ∷ d ∷ s) =
    let rest = first_piece (d ∷ s) in if eqb c b':' && eqb d b':' then [] else c ∷ rest

unfoldable pub after_piece : Text → Option Text
after_piece [] = none
after_piece (c ∷ []) = none
after_piece (c ∷ d ∷ s) =
    let rest = after_piece (d ∷ s) in if eqb c b':' && eqb d b':' then some s else rest

unfoldable pub parse_id : Text → Option Text
parse_id id = if id == codes "undefined" then none else some id

-- the message of an id and the rest; `none` stands for the error that `Buffer.from(undefined)` throws
-- when there is no second piece
unfoldable pub message_of : Text → Option Text → Option TransportMessage
unfolding first_piece parse_id
message_of id none = none
message_of id (some rest) =
    some (record {
      data_text = first_piece rest;
      reply_to = parse_id id;
      correlation_id = parse_id id;
    })

unfoldable pub decode_redis_message : Text → Option TransportMessage
unfolding first_piece after_piece message_of
decode_redis_message message = message_of (first_piece message) (after_piece message)

-- transport.transformer.ts, with `msgTransformer.decode` given: the event that it decodes, or what it
-- throws. The events of `errorSubject` are listed.
pub data DecodedEvent (P E X : Type 0) : Type 0 where
  event_decoded : Event P E (EventMetadata TransportMessage) → DecodedEvent P E X
  decode_threw : X → DecodedEvent P E X

module _ {P E : Type 0} where
  abbrev pub apply_metadata :
      TransportMessage
      → Event P E (EventMetadata TransportMessage)
      → Event P E (EventMetadata TransportMessage)
  apply_metadata raw event = record event {
    metadata =
        some
          (record { raw = some raw; correlation_id = raw.correlation_id; reply_to = raw.reply_to });
  }

  abbrev pub unknown_event : Event P E (EventMetadata TransportMessage)
  unknown_event = record {
    event_type = codes "UNKNOWN";
    payload = none;
    error = none;
    metadata = none;
  }

module _ {P E X : Type 0} where
  unfoldable pub decoded_event :
      TransportMessage → DecodedEvent P E X → Event P E (EventMetadata TransportMessage) × List X
  decoded_event msg (event_decoded event) = (apply_metadata msg event, [])
  decoded_event msg (decode_threw err) = (apply_metadata msg unknown_event, err ∷ [])

  unfoldable pub decode_message :
      (Text → DecodedEvent P E X)
      → TransportMessage
      → Event P E (EventMetadata TransportMessage) × List X
  unfolding decoded_event
  decode_message decode msg = decoded_event msg (decode msg.data_text)

-- reply.ts
pub data ReplyTarget (R : Type 0) : Type 0 where
  to_channel : Text → ReplyTarget R
  to_metadata : EventMetadata R → ReplyTarget R
  to_event : MetaEvent R → ReplyTarget R

abbrev pub truthy_text : Option Text → Bool
truthy_text none = false
truthy_text (some []) = false
truthy_text (some (_ ∷ _)) = true

module _ {R : Type 0} where
  abbrev pub raw_field : Option (EventMetadata R) → Option R
  raw_field none = none
  raw_field (some m) = m.raw

  abbrev pub correlation_field : Option (EventMetadata R) → Option Text
  correlation_field none = none
  correlation_field (some m) = m.correlation_id

  abbrev pub reply_field : Option (EventMetadata R) → Option Text
  reply_field none = none
  reply_field (some m) = m.reply_to

  unfoldable pub compose_metadata :
      Option (EventMetadata R) → Option (EventMetadata R) → EventMetadata R
  compose_metadata origin custom = record {
    raw = or_option (raw_field origin) (raw_field custom);
    correlation_id = or_option (correlation_field origin) (correlation_field custom);
    reply_to =
        some (or_else (reply_field origin) (or_else (reply_field custom) (codes "_UNKNOWN_")));
  }

  -- `isEventMetadata`; metadata without a truthy id is taken for an event, which has no metadata
  abbrev pub custom_metadata : ReplyTarget R → Option (EventMetadata R)
  custom_metadata (to_channel c) =
      some (record { raw = none; correlation_id = none; reply_to = some c })
  custom_metadata (to_metadata m) =
      if truthy_text m.correlation_id || truthy_text m.reply_to then some m else none
  custom_metadata (to_event e) = e.metadata

  -- `none` stands for the `MissingEventTypeError`. Of the fields of an event the model has the type
  -- and the metadata, which are never those of the target.
  unfoldable pub reply : ReplyTarget R → MetaEvent R → Option (MetaEvent R)
  unfolding compose_metadata
  reply target event = elim event.event_type [
    | [] ↦ none
    | c ∷ s ↦ some (record event {
      metadata = some (compose_metadata event.metadata (custom_metadata target));
    })
  ]

-- local.strategy.ts: what was emitted on the two subjects of a connection, in order
pub record LocalConnection : Type 0 where
  pub channel : Text
  pub rpc_subject : List TransportMessage
  pub msg_subject : List TransportMessage

-- `channel && channel !== this.opts.channel`
abbrev pub is_foreign : Text → Text → Bool
is_foreign [] own = false
is_foreign (c ∷ s) own = not (c ∷ s == own)

unfoldable pub emit_message : Text → TransportMessage → LocalConnection → LocalConnection
emit_message target message conn =
    if is_foreign target conn.channel
    then record conn { rpc_subject = conn.rpc_subject ++ message ∷ [] }
    else record conn { msg_subject = conn.msg_subject ++ message ∷ [] }

-- the emission of `setImmediate` in `sendMessage`, with the id that `createUuid` gives
unfoldable pub send_message : Text → TransportMessage → LocalConnection → LocalConnection
send_message uuid message conn = record conn {
  msg_subject =
      conn.msg_subject ++ record message { reply_to = some uuid; correlation_id = some uuid } ∷ [];
}

abbrev pub has_text : Text → Option Text → Bool
has_text t none = false
has_text t (some s) = s == t

-- the filter of `sendMessage`
abbrev pub is_answer : Text → TransportMessage → Bool
is_answer uuid msg = has_text uuid msg.reply_to && has_text uuid msg.correlation_id

-- `lastValueFrom` of the first message that passes: the answer, once there is one
unfoldable pub answer : Text → LocalConnection → Option TransportMessage
answer uuid conn = find (is_answer uuid) conn.rpc_subject
