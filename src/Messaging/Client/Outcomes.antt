-- ===== src/Messaging/Client/Outcomes.antt =====
-- What an error that a server encodes is for the client: messaging.eventOutput.middleware.ts and
-- messaging.client.ts of packages/messaging/src together.
use marble_js.Base.{◌≡◌, refl, ◌∙◌, ◌⊎◌, inl, inr, Bool, false, Text, codes, ◌==◌, Bool-cases}
use marble_js.Core.Errors.{
  ErrorValue, property, is_error, encode_error, has_type, is_event_error, is_named_error,
}
use marble_js.Core.Errors.Encoding.{property-encode_error}
use marble_js.Messaging.Client.{ClientConfig, call_threw, invalid_error, throw_error}
use marble_js.Messaging.Listener.{MsgEvent}

module _ {V : Type 0} (truthy : V → Bool) where
  property-encode_error-other :
      (error : ErrorValue V) (k : Text)
      → (k == codes "stack") ≡ false
      → property k (encode_error truthy error) ≡ property k error
  unfolding encode_error
  property-encode_error-other error k other = elim (Bool-cases (is_error truthy error)) [
    | inl is ↦ property-encode_error truthy error k is ∙ rw other refl
    | inr not_error ↦ rw not_error refl
  ]

-- what is thrown is decided by the three properties that are read of the error
throw_error-cong :
    {P V : Type 0} (client : ClientConfig P V) (event : MsgEvent P V) (a b : ErrorValue V)
    → property (codes "name") a ≡ property (codes "name") b
    → property (codes "message") a ≡ property (codes "message") b
    → property (codes "data") a ≡ property (codes "data") b
    → (throw_error client event a ≡ throw_error client event b)
      ⊎ ((is_named_error client.truthy b ≡ false)
          × (throw_error client event a ≡ call_threw (invalid_error (client.stringify a))))
unfolding throw_error is_event_error is_named_error has_type
throw_error-cong client event a b name message data_of =
    let same_event : is_event_error client.equals a ≡ is_event_error client.equals b =
      rw name refl in
    let same_named : is_named_error client.truthy a ≡ is_named_error client.truthy b =
      rw name (rw message refl) in
    elim (Bool-cases (is_event_error client.equals b)) [
      | inl is ↦ inl (rw same_event (rw is (rw message (rw data_of refl))))
      | inr other ↦ elim (Bool-cases (is_named_error client.truthy b)) [
        | inl is ↦
            inl (rw same_event (rw same_named (rw other (rw is (rw name (rw message refl))))))
        | inr no_name ↦ inr (no_name, rw same_event (rw same_named (rw other (rw no_name refl))))
      ]
    ]

-- Encoding loses nothing of what a client throws: for an event with an encoded error, the client
-- throws an error of the same class, with the same name, message and data, as for the error itself;
-- only the text of an error without a name or a message may be another.
pub throw_error-encode_error :
    {P V : Type 0} (client : ClientConfig P V) (truthy : V → Bool) (event : MsgEvent P V)
    (error : ErrorValue V)
    → (throw_error client event (encode_error truthy error) ≡ throw_error client event error)
      ⊎ ((is_named_error client.truthy error ≡ false)
          × (throw_error client event (encode_error truthy error)
              ≡ call_threw (invalid_error (client.stringify (encode_error truthy error)))))
unfolding ◌==◌
throw_error-encode_error client truthy event error =
    throw_error-cong client event (encode_error truthy error) error
      (property-encode_error-other truthy error (codes "name") refl)
      (property-encode_error-other truthy error (codes "message") refl)
      (property-encode_error-other truthy error (codes "data") refl)
