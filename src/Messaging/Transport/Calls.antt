-- ===== src/Messaging/Transport/Calls.antt =====
-- Replies and remote calls: packages/messaging/src/reply/reply.ts and
-- packages/messaging/src/transport/strategies/local.strategy.ts.
use marble_js.Base.{
  ℕ, ◌≡◌, refl, some, Bool, true, false, List, [], ◌∷◌, ◌++◌, Text, ==_refl, find, All, is_some,
  or_option, append_assoc,
}
use marble_js.Messaging.Timers.{MetaEvent}
use marble_js.Messaging.Transport.{
  TransportMessage, ReplyTarget, custom_metadata, correlation_field, reply_field, compose_metadata,
  reply, LocalConnection, is_foreign, emit_message, send_message, is_answer, answer,
}

-- Every event with a type can be replied: the reply keeps its type, has a channel to go to, and has
-- the correlation id of the event itself or else that of the target.
reply-correlation_id :
    {R : Type 0} (target : ReplyTarget R) (event : MetaEvent R) (c : ℕ) (s : Text)
    → event.event_type ≡ c ∷ s
    → (answered : MetaEvent R) × (reply target event ≡ some answered)
      × (answered.event_type ≡ c ∷ s)
      × (is_some (reply_field answered.metadata) ≡ true)
      × (correlation_field answered.metadata
          ≡ or_option
              (correlation_field event.metadata)
              (correlation_field (custom_metadata target)))
unfolding reply compose_metadata
reply-correlation_id target event c s h =
    let answered = record event {
      metadata = some (compose_metadata event.metadata (custom_metadata target));
    } in
    (answered, rw h refl, h, refl, refl)

pub find-append :
    (p : TransportMessage → Bool) (ms : List TransportMessage) (m : TransportMessage)
    (more : List TransportMessage)
    → All (λ x. p x ≡ false) ms
    → p m ≡ true
    → find p (ms ++ m ∷ more) ≡ some m
find-append p [] m more h e = rw e refl
find-append p (x ∷ ms) m more h e = rw h.0 (find-append p ms m more h.1 e)

-- A remote call over the local transport, with an id that is not the channel of the connection:
-- when no answer with the id was emitted before, a response with the id that is emitted on it is
-- the answer, also after a further message is emitted on any other channel than that of the
-- connection.
answer-emit_message :
    (uuid : Text) (request response later : TransportMessage) (channel : Text)
    (conn : LocalConnection)
    → is_foreign uuid conn.channel ≡ true
    → is_foreign channel conn.channel ≡ true
    → All (λ m. is_answer uuid m ≡ false) conn.rpc_subject
    → response.reply_to ≡ some uuid
    → response.correlation_id ≡ some uuid
    → answer uuid
        (emit_message channel later (emit_message uuid response (send_message uuid request conn)))
      ≡ some response
unfolding answer emit_message send_message
answer-emit_message uuid request response later channel conn foreign away fresh to id = rw foreign (
    rw away (
      rw (append_assoc conn.rpc_subject (response ∷ []) (later ∷ [])) (
        find-append (is_answer uuid) conn.rpc_subject response (later ∷ []) fresh
          (rw to (rw id (rw (==_refl uuid) refl))))))
