-- ===== src/Messaging/Middlewares/Outgoing.antt =====
-- What packages/messaging/src/middlewares/messaging.eventOutput.middleware.ts gives an event.
use marble_js.Base.{
  ◌≡◌, refl, inl, inr, none, some, Option, Bool, false, Text, or_else, Bool-cases, arith,
}
use marble_js.Core.Errors.{ErrorValue, is_error, encode_error}
use marble_js.Core.Errors.Encoding.{is_error-encode_error}
use marble_js.Core.Events.{Event}
use marble_js.Messaging.Timers.{EventMetadata}
use marble_js.Messaging.Transport.{correlation_field, reply_field}
use marble_js.Messaging.Middlewares.{
  apply_id, route_output, truthy_error_value, encode_non_nullable, has_error, encode_output_error,
  PayloadError,
}

module _ {P E R : Type 0} where
  -- A routed event has the correlation id and the channel that it had, or else the fresh id and the
  -- channel of the transport layer, and keeps its type, payload and error; routing it again, with
  -- any other id and channel, changes nothing.
  route_output-route_output :
      (origin other uuid fresh : Text) (event : Event P E (EventMetadata R))
      → let routed = route_output origin uuid event in
        (correlation_field routed.metadata ≡ some (or_else (correlation_field event.metadata) uuid))
        × (reply_field routed.metadata ≡ some (or_else (reply_field event.metadata) origin))
        × (route_output other fresh routed ≡ routed)
  unfolding route_output
  route_output-route_output origin other uuid fresh event = (refl, refl, refl)

  -- An id that was applied is the one that the event is routed with.
  route_output-apply_id :
      (origin uuid fresh : Text) (event : Event P E (EventMetadata R))
      → route_output origin fresh (apply_id uuid event) ≡ route_output origin uuid event
  unfolding route_output apply_id
  route_output-apply_id origin uuid fresh event = refl

module _ {V : Type 0} (truthy : V → Bool) where
  -- an error that is sent is not one with a stack
  abbrev pub HasNoStack : Option (ErrorValue V) → Type 0
  HasNoStack none = Unit
  HasNoStack (some error) = is_error truthy error ≡ false

  is_error-falsy :
      (error : Option (ErrorValue V)) → truthy_error_value truthy error ≡ false → HasNoStack error
  unfolding is_error marble_js.Core.Errors.property
  is_error-falsy none h = tt
  is_error-falsy (some ErrorValue.nullish) h = refl
  is_error-falsy (some (ErrorValue.plain v)) h = refl
  is_error-falsy (some (ErrorValue.with_properties own name)) h = cc

  encode_non_nullable-HasNoStack :
      (error : Option (ErrorValue V)) → HasNoStack (encode_non_nullable truthy error)
  unfolding encode_non_nullable
  encode_non_nullable-HasNoStack none = tt
  encode_non_nullable-HasNoStack (some error) = is_error-encode_error truthy error

  module _ {P M : Type 0} (access : PayloadError P V) where
    -- The error of an event that leaves the encoder has no stack, on every branch of the encoder,
    -- and the type and the metadata of the event are unchanged.
    encode_output_error-HasNoStack :
        (event : Event P (ErrorValue V) M)
        → HasNoStack (encode_output_error truthy access event).error
          × ((encode_output_error truthy access event).event_type ≡ event.event_type)
          × ((encode_output_error truthy access event).metadata ≡ event.metadata)
    unfolding encode_output_error has_error
    encode_output_error-HasNoStack event = elim (Bool-cases (has_error truthy access event)) [
      | inl found ↦ rw found (encode_non_nullable-HasNoStack event.error, refl, refl)
      | inr clean ↦ rw clean (is_error-falsy event.error (ground arith), refl, refl)
    ]

module _ {V : Type 0} (truthy : V → Bool) {P M : Type 0} (access : PayloadError P V) where
  pub encode_output_error-metadata :
      (event : Event P (ErrorValue V) M) (metadata : Option M)
      → encode_output_error truthy access (record event { metadata = metadata })
        ≡ record (encode_output_error truthy access event) { metadata = metadata }
  unfolding encode_output_error has_error
  encode_output_error-metadata event metadata = elim (Bool-cases (has_error truthy access event)) [
    | inl found ↦ rw found refl
    | inr clean ↦ rw clean refl
  ]
