-- ===== src/Messaging/Transport/Codec.antt =====
-- The messages of packages/messaging/src/transport/strategies/redis.strategy.helper.ts.
use marble_js.Base.{
  ◌≡◌, refl, ◌∙◌, some, false, ◌&&◌, [], ◌∷◌, ◌++◌, Text, codes, ◌==◌, eqb, All, ap, sym,
  append_assoc,
}
use marble_js.Messaging.Transport.{
  encode_message, first_piece, after_piece, parse_id, decode_redis_message, message_of,
}

abbrev pub HasNoColon : Text → Type 0
HasNoColon s = All (λ c. eqb c b':' ≡ false) s

first_piece-append : (id s : Text) → HasNoColon id → first_piece (id ++ b':' ∷ b':' ∷ s) ≡ id
unfolding first_piece
first_piece-append [] s h = refl
first_piece-append (c ∷ []) s h = rw h.0 refl
first_piece-append (c ∷ d ∷ id) s h = rw h.0 (ap (λ t. c ∷ t) (first_piece-append (d ∷ id) s h.1))

after_piece-append : (id s : Text) → HasNoColon id → after_piece (id ++ b':' ∷ b':' ∷ s) ≡ some s
unfolding after_piece
after_piece-append [] s h = refl
after_piece-append (c ∷ []) s h = rw h.0 refl
after_piece-append (c ∷ d ∷ id) s h = rw h.0 (after_piece-append (d ∷ id) s h.1)

-- no two colons in a row
abbrev pub HasNoPair : Text → Type 0
HasNoPair [] = Unit
HasNoPair (c ∷ []) = Unit
HasNoPair (c ∷ d ∷ s) = ((eqb c b':' && eqb d b':') ≡ false) × HasNoPair (d ∷ s)

first_piece-HasNoPair : (s : Text) → HasNoPair s → first_piece s ≡ s
unfolding first_piece
first_piece-HasNoPair [] h = refl
first_piece-HasNoPair (c ∷ []) h = refl
first_piece-HasNoPair (c ∷ d ∷ s) h = rw h.0 (ap (λ t. c ∷ t) (first_piece-HasNoPair (d ∷ s) h.1))

first_piece-HasNoColon : (s : Text) → HasNoColon s → first_piece s ≡ s
unfolding first_piece
first_piece-HasNoColon [] h = refl
first_piece-HasNoColon (c ∷ []) h = refl
first_piece-HasNoColon (c ∷ d ∷ s) h = rw h.0 (ap (λ t. c ∷ t) (first_piece-HasNoColon (d ∷ s) h.1))

decode-encode_lem :
    (id s : Text)
    → HasNoColon id
    → decode_redis_message (encode_message (some id) s)
      ≡ some (record {
        data_text = first_piece s;
        reply_to = parse_id id;
        correlation_id = parse_id id;
      })
unfolding decode_redis_message message_of encode_message
decode-encode_lem id s h =
    rw (append_assoc id (codes "::") s)
      (rw (first_piece-append id s h) (rw (after_piece-append id s h) refl))

-- A Redis message is decoded to the id and the data that it was encoded from, for an id without
-- colons other than `undefined`, and data without two colons in a row.
pub decode_redis_message-encode_message :
    (id s : Text)
    → HasNoColon id
    → (id == codes "undefined") ≡ false
    → HasNoPair s
    → decode_redis_message (encode_message (some id) s)
      ≡ some (record { data_text = s; reply_to = some id; correlation_id = some id })
unfolding parse_id
decode_redis_message-encode_message id s h named pair =
    decode-encode_lem id s h ∙ rw (first_piece-HasNoPair s pair) (rw named refl)

-- Two colons in a row in the data of a Redis message end it: what follows them is lost.
decode_redis_message-truncates :
    (id a b : Text)
    → HasNoColon id
    → HasNoColon a
    → decode_redis_message (encode_message (some id) (a ++ b':' ∷ b':' ∷ b))
      ≡ decode_redis_message (encode_message (some id) a)
decode_redis_message-truncates id a b h ha =
    decode-encode_lem id (a ++ b':' ∷ b':' ∷ b) h
    ∙ rw (first_piece-append a b ha)
        (sym (decode-encode_lem id a h ∙ rw (first_piece-HasNoColon a ha) refl))
