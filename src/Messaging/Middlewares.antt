-- ===== src/Messaging/Middlewares.antt =====
-- packages/messaging/src/middlewares: messaging.eventInput.middleware.ts and
-- messaging.eventOutput.middleware.ts, on one event. The id of `createUuid` is an argument; of the
-- properties of the metadata the model has the three that the interface names.
pub mod Outgoing
use marble_js.Base.{Option, none, some, Bool, true, false, not, ◌||◌, Text, or_else, if◌then◌else◌}
use marble_js.Core.Errors.{ErrorValue, nullish, plain, with_properties, encode_error}
use marble_js.Core.Events.{Event}
use marble_js.Messaging.Timers.{EventMetadata}
use marble_js.Messaging.Transport.{raw_field, correlation_field, reply_field}

abbrev pub identified : {R : Type 0} → Text → Option (EventMetadata R) → EventMetadata R
identified uuid metadata = record {
  raw = raw_field metadata;
  correlation_id = some (or_else (correlation_field metadata) uuid);
  reply_to = reply_field metadata;
}

module _ {P E R : Type 0} where
  -- `idApplier$`
  unfoldable pub apply_id : Text → Event P E (EventMetadata R) → Event P E (EventMetadata R)
  apply_id uuid event = record event { metadata = some (identified uuid event.metadata) }

  -- `outputRouter$`
  unfoldable pub route_output :
      Text → Text → Event P E (EventMetadata R) → Event P E (EventMetadata R)
  route_output origin_channel uuid event = record event {
    metadata = some (record (identified uuid event.metadata) {
      reply_to = some (or_else (reply_field event.metadata) origin_channel);
    });
  }

-- the truth of an error, `undefined` when it is missing
abbrev pub truthy_error_value : {V : Type 0} → (V → Bool) → Option (ErrorValue V) → Bool
truthy_error_value truthy none = false
truthy_error_value truthy (some nullish) = false
truthy_error_value truthy (some (plain v)) = truthy v
truthy_error_value truthy (some (with_properties own name)) = true

-- `if (isNonNullable(eventError)) event.error = encodeError(eventError)`
unfoldable pub encode_non_nullable :
    {V : Type 0} → (V → Bool) → Option (ErrorValue V) → Option (ErrorValue V)
encode_non_nullable truthy none = none
encode_non_nullable truthy (some error) = some (encode_error truthy error)

-- How the `error` of a payload is read and assigned.
pub record PayloadError (P V : Type 0) : Type 0 where
  pub payload_error : P → Option (ErrorValue V)
  pub set_error : ErrorValue V → P → P

module _ {P V : Type 0} where
  abbrev pub error_of_payload : PayloadError P V → Option P → Option (ErrorValue V)
  error_of_payload access none = none
  error_of_payload access (some payload) = access.payload_error payload

  -- `event.payload.error = encodeError(payloadError)`
  unfoldable pub encode_in : (V → Bool) → PayloadError P V → P → Option (ErrorValue V) → P
  encode_in truthy access payload none = payload
  encode_in truthy access payload (some error) =
      access.set_error (encode_error truthy error) payload

  unfoldable pub encode_payload_error : (V → Bool) → PayloadError P V → Option P → Option P
  unfolding encode_in
  encode_payload_error truthy access none = none
  encode_payload_error truthy access (some payload) =
      some (encode_in truthy access payload (access.payload_error payload))

  module _ {M : Type 0} where
    unfoldable pub has_error : (V → Bool) → PayloadError P V → Event P (ErrorValue V) M → Bool
    has_error truthy access event =
        truthy_error_value truthy (error_of_payload access event.payload)
        || truthy_error_value truthy event.error

    -- `outputErrorEncoder$`
    unfoldable pub encode_output_error :
        (V → Bool) → PayloadError P V → Event P (ErrorValue V) M → Event P (ErrorValue V) M
    unfolding has_error encode_non_nullable encode_payload_error
    encode_output_error truthy access event =
        if not (has_error truthy access event) then event else record event {
          payload = encode_payload_error truthy access event.payload;
          error = encode_non_nullable truthy event.error;
        }
