-- ===== src/Messaging/EventLogger/Tests.antt =====
-- The texts of messaging.eventLogger.middleware.ts on concrete events.
use marble_js.Base.{◌≡◌, refl, some, codes, starts_with}
use marble_js.Messaging.EventLogger.{remove_first, outgoing_text, nonempty_text, known_id}

remove_first_unhandled :
    remove_first (codes "_UNHANDLED_ERROR") (codes "ADD_UNHANDLED_ERROR") ≡ codes "ADD"
unfolding remove_first starts_with
remove_first_unhandled = refl

outgoing_text_sent :
    outgoing_text (codes "ADD") (some (codes "q")) (some (codes "7"))
    ≡ codes "ADD, id: 7 and sent to \"q\""
unfolding outgoing_text
outgoing_text_sent = refl

known_id_empty : known_id (some (codes "")) ≡ codes "UNKNOWN_CORRELATION_ID"
unfolding known_id nonempty_text
known_id_empty = refl
