-- ===== src/Sockets/Responses.antt =====
-- packages/websockets/src/server/websocket.server.response.ts and
-- operators/broadcast/websocket.broadcast.operator.ts: what is sent to clients, where the transformer
-- and `client.send` may fail. Logging is not modelled.
pub mod Broadcast
use marble_js.Base.{Option, none, some, Bool, true, false, List, [], ◌∷◌, ◌++◌, Text, map}

-- `WebSocket.readyState`
pub data ReadyState : Type 0 where
  connecting opened closing closed : ReadyState

-- A client, whether its `send` calls back with an error, and the texts that it was sent, the last
-- one first.
pub record Receiver : Type 0 where
  pub ready_state : ReadyState
  pub send_fails : Bool
  pub received : List Text

-- `sendMessage`, by the error of its callback: a rejected promise is `false`
unfoldable pub send_if : Bool → Text → Receiver → Receiver × Bool
send_if true text client = (client, false)
send_if false text client = (record client { received = text ∷ client.received }, true)

-- `tryToSendEvent`, with what `encode` gives, none when it throws
unfoldable pub try_to_send : Option Text → Receiver → Receiver × Bool
unfolding send_if
try_to_send none client = (client, false)
try_to_send (some text) client = send_if client.send_fails text client

-- `emitEvent`: the value that the stream emits
unfoldable pub emit_in : ReadyState → Option Text → Receiver → Receiver × Bool
unfolding try_to_send
emit_in opened encoded client = try_to_send encoded client
emit_in connecting encoded client = (client, false)
emit_in closing encoded client = (client, false)
emit_in closed encoded client = (client, false)

unfoldable pub emit_event : Option Text → Receiver → Receiver × Bool
unfolding emit_in
emit_event encoded client = emit_in client.ready_state encoded client

unfoldable pub emit_all : Option Text → List Receiver → List (Receiver × Bool)
unfolding emit_event
emit_all encoded [] = []
emit_all encoded (client ∷ clients) = emit_event encoded client ∷ emit_all encoded clients

-- `forkJoin` of no streams completes without a value
abbrev pub joined : List (Receiver × Bool) → List Bool
joined [] = []
joined (_ ∷ _) = true ∷ []

-- `broadcastEvent`: the clients, and the values that the stream emits
unfoldable pub broadcast_event : Option Text → List Receiver → List Receiver × List Bool
unfolding emit_all
broadcast_event encoded clients =
    let results = emit_all encoded clients in (map (λ r. r.0) results, joined results)

-- the operator `broadcast` on the events of a source, with the transformer
unfoldable pub broadcast :
    {I O : Type 0} → (I → O) → (O → Option Text) → List I → List Receiver → List Receiver × List O
unfolding broadcast_event
broadcast fn encode [] clients = (clients, [])
broadcast fn encode (input ∷ inputs) clients =
    let sent = broadcast_event (encode (fn input)) clients in
    let rest = broadcast fn encode inputs sent.0 in (rest.0, map (λ b. fn input) sent.1 ++ rest.1)
