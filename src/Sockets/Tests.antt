-- ===== src/Sockets/Tests.antt =====
-- packages/websockets/src on concrete values.
use marble_js.Base.{
  ℕ, ◌+◌, ◌≡◌, refl, none, some, true, false, Bool, ◌++◌, List, [], ◌∷◌, map, length, Text, codes,
  ◌==◌, arith,
}
use marble_js.Core.Errors.{plain}
use marble_js.Core.Events.{threw, returned}
use marble_js.Sockets.Heartbeat.{SocketClient, connected, Beat, ticks, passes, steps}
use marble_js.Sockets.Heartbeat.Rounds.{round, rounds, steps-rounds, steps-late}
use marble_js.Sockets.Heartbeat.Silence.{steps-Silent}
use marble_js.Sockets.Listener.{WsEvent, WsCalled, ws_decoded, SocketConfig, default_ws_error}
use marble_js.Sockets.Listener.Metadata.{AllStripped, ws_run, ws_run-AllStripped}
use marble_js.Sockets.Responses.{Receiver, opened, closed, broadcast_event}
use marble_js.Sockets.Responses.Broadcast.{sent_to, announced, broadcast_event-sent_to}
use marble_js.Sockets.Upgrade.{
  ServerMapping, UpgradeRequest, handle_upgrade, destroy_socket, upgrade_matched, map_to_server,
  map_all_to_server,
}
use marble_js.Sockets.Upgrade.Matching.{map_all_to_server-matched_twice}

abbrev quiet : List Beat
quiet = passes 6000 ∷ ticks ∷ passes 5000 ∷ []

steps-Silent_example : (steps quiet connected).is_terminated ≡ true
steps-Silent_example = steps-Silent quiet connected 11000 refl tt (omega arith) (omega arith)

abbrev answered : SocketClient
answered = record connected { timeout_in = some 1500 }

abbrev latencies : List ℕ
latencies = 900 ∷ 1800 ∷ []

steps-rounds_example :
    ((steps (rounds latencies) answered).is_terminated ≡ answered.is_terminated)
    × ((steps (rounds latencies) answered).is_alive ≡ true)
    × ((steps (rounds latencies) answered).pings ≡ answered.pings + length latencies)
steps-rounds_example =
    steps-rounds 500 latencies answered (omega arith, omega arith, (omega arith, omega arith, tt))
      refl refl

steps-late_example :
    ((steps (round 500) answered).is_terminated ≡ answered.is_terminated)
    × ((steps (round 500 ++ round 1500) answered).is_terminated ≡ true)
steps-late_example =
    steps-late 1500 500 1500 answered (omega arith) (omega arith) (omega arith) (omega arith) refl
      refl

abbrev clients : List Receiver
clients =
    record { ready_state = opened; send_fails = false; received = [] }
    ∷ record { ready_state = closed; send_fails = false; received = [] }
    ∷ []

broadcast_event-sent_to_example :
    ((broadcast_event (some (codes "hi")) clients).0 ≡ map (sent_to (codes "hi")) clients)
    × ((broadcast_event (some (codes "hi")) clients).1 ≡ announced clients)
broadcast_event-sent_to_example = broadcast_event-sent_to (codes "hi") clients

abbrev mapping : List ServerMapping
mapping =
    record { path_to_match = λ url. true; server = some 1 }
    ∷ record { path_to_match = λ url. true; server = some 2 }
    ∷ []

abbrev request : UpgradeRequest
request = record { upgrade = some (codes "websocket"); url = some (codes "/") }

-- `handleUpgrade` throws on a socket that it was called for
abbrev throws_again : List ℕ → ℕ → Bool
throws_again [] server = false
throws_again (s ∷ called) server = true

map_all_to_server-matched_twice_example :
    map_all_to_server throws_again mapping (request ∷ request ∷ [])
    ≡ (handle_upgrade 1 ∷ handle_upgrade 2 ∷ []) ∷ [] ∷ []
unfolding ◌==◌
map_all_to_server-matched_twice_example =
    map_all_to_server-matched_twice throws_again mapping request (request ∷ []) 1 2 [] refl refl
      refl refl

-- a socket that no path matches is destroyed, and the next request is handled
map_all_to_server_tests :
    map_all_to_server throws_again [] (request ∷ request ∷ [])
    ≡ (destroy_socket ∷ []) ∷ (destroy_socket ∷ []) ∷ []
unfolding ◌==◌ map_all_to_server map_to_server upgrade_matched
map_all_to_server_tests = refl

abbrev echo : WsEvent Text Text → WsCalled Text Text
echo event = returned (record { events = event ∷ []; failure = none })

abbrev config : SocketConfig Text Text
config = record {
  middlewares = echo;
  effects = λ event. threw (plain (codes "no"));
  output = echo;
  error_effect = λ err. returned (record {
    events = default_ws_error (λ v t. v == t) (λ e. codes "E") err ∷ [];
    failure = none;
  });
  decode = λ text.
      ws_decoded (record { event_type = text; payload = none; error = none; metadata = none });
  address = codes "-";
  client_id = codes "id";
}

ws_run-AllStripped_example : AllStripped (ws_run config (codes "A" ∷ codes "B" ∷ []) [])
ws_run-AllStripped_example =
    ws_run-AllStripped config ((λ v t. v == t), (λ e. codes "E"), (λ err. refl))
      (codes "A" ∷ codes "B" ∷ []) [] tt
