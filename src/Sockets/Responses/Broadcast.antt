-- ===== src/Sockets/Responses/Broadcast.antt =====
-- Who gets a broadcast of packages/websockets/src/server/websocket.server.response.ts.
use marble_js.Base.{
  ◌≡◌, refl, ap, Option, some, Bool, true, false, not, ◌&&◌, List, [], ◌∷◌, Text, map,
}
use marble_js.Sockets.Responses.{
  ReadyState, connecting, opened, closing, closed, Receiver, send_if, joined, try_to_send, emit_in,
  emit_event, emit_all, broadcast_event, broadcast,
}

abbrev pub is_open : ReadyState → Bool
is_open opened = true
is_open connecting = false
is_open closing = false
is_open closed = false

-- who can be sent to
abbrev pub is_reached : Receiver → Bool
is_reached client = is_open client.ready_state && not client.send_fails

abbrev pub sent_if : Bool → Text → Receiver → Receiver
sent_if true text client = record client { received = text ∷ client.received }
sent_if false text client = client

-- The client after a text was sent to it, if it is reached.
abbrev pub sent_to : Text → Receiver → Receiver
sent_to text client = sent_if (is_reached client) text client

send_if_lem :
    (fails : Bool) (text : Text) (client : Receiver)
    → send_if fails text client ≡ (sent_if (not fails) text client, not fails)
unfolding send_if
send_if_lem true text client = refl
send_if_lem false text client = refl

emit_in_lem :
    (text : Text) (client : Receiver) (state : ReadyState)
    → emit_in state (some text) client ≡ (
      sent_if (is_open state && not client.send_fails) text client,
      is_open state && not client.send_fails,
    )
unfolding emit_in try_to_send
emit_in_lem text client opened = send_if_lem client.send_fails text client
emit_in_lem text client connecting = refl
emit_in_lem text client closing = refl
emit_in_lem text client closed = refl

emit_all_lem :
    (text : Text) (clients : List Receiver)
    → emit_all (some text) clients ≡ map (λ c. (sent_to text c, is_reached c)) clients
unfolding emit_all emit_event
emit_all_lem text [] = refl
emit_all_lem text (client ∷ clients) =
    rw (emit_in_lem text client client.ready_state) (rw (emit_all_lem text clients) refl)

map-map :
    {A B C : Type 0} (g : B → C) (f : A → B) (xs : List A)
    → map g (map f xs) ≡ map (λ x. g (f x)) xs
map-map g f [] = refl
map-map g f (x ∷ xs) = ap (λ t. g (f x) ∷ t) (map-map g f xs)

-- the value of a broadcast to some clients, and of one to none
abbrev pub announced : List Receiver → List Bool
announced [] = []
announced (_ ∷ _) = true ∷ []

joined-announced :
    (encoded : Option Text) (clients : List Receiver)
    → joined (emit_all encoded clients) ≡ announced clients
unfolding emit_all
joined-announced encoded [] = refl
joined-announced encoded (client ∷ clients) = refl

-- A broadcast of a text is received, once, by every client that is open and whose `send` does not
-- fail, and by no other; the stream emits `true` when there are clients, whoever of them is reached,
-- and nothing when there are none.
pub broadcast_event-sent_to :
    (text : Text) (clients : List Receiver)
    → ((broadcast_event (some text) clients).0 ≡ map (sent_to text) clients)
      × ((broadcast_event (some text) clients).1 ≡ announced clients)
unfolding broadcast_event
broadcast_event-sent_to text clients = (
  rw (emit_all_lem text clients) (map-map (λ r. r.0) (λ c. (sent_to text c, is_reached c)) clients),
  joined-announced (some text) clients,
)

module _ {I O : Type 0} (fn : I → O) (encode : O → Option Text) where
  -- there are clients after a broadcast when there were before
  broadcast-some :
      (inputs : List I) (clients : List Receiver)
      → announced clients ≡ true ∷ []
      → (broadcast fn encode inputs clients).1 ≡ map fn inputs
  unfolding broadcast broadcast_event emit_all
  broadcast-some [] clients h = refl
  broadcast-some (input ∷ inputs) [] h = cc
  broadcast-some (input ∷ inputs) (client ∷ clients) h =
      ap (λ t. fn input ∷ t) (broadcast-some inputs _ refl)

  broadcast-none : (inputs : List I) → (broadcast fn encode inputs []).1 ≡ []
  unfolding broadcast broadcast_event emit_all
  broadcast-none [] = refl
  broadcast-none (input ∷ inputs) = broadcast-none inputs

  -- The operator `broadcast` emits the mapped events of its source, all of them and in order, also
  -- those that cannot be encoded or that reach no client, when there is a client; when there is
  -- none, it emits no event.
  broadcast-announced :
      (inputs : List I) (client : Receiver) (clients : List Receiver)
      → ((broadcast fn encode inputs (client ∷ clients)).1 ≡ map fn inputs)
        × ((broadcast fn encode inputs []).1 ≡ [])
  broadcast-announced inputs client clients =
      (broadcast-some inputs (client ∷ clients) refl, broadcast-none inputs)
