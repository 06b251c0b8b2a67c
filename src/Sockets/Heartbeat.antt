-- ===== src/Sockets/Heartbeat.antt =====
-- packages/websockets/src/server/websocket.server.helper.ts: the two watches over a client, the
-- interval of the server and the timeout of the client, with the time that passes as a step. What
-- the package `ws` does on `terminate` is not modelled.
pub mod Silence
pub mod Rounds
use marble_js.Base.{
  ℕ, ◌+◌, ◌-◌, ◌≡◌, refl, Option, none, some, Bool, true, false, not, List, [], ◌∷◌, leb, eqb,
  or_else, if◌then◌else◌,
}

abbrev pub heart_beat_interval : ℕ
heart_beat_interval = 10000

abbrev pub heart_beat_terminate_interval : ℕ
heart_beat_terminate_interval = 11000

-- `WebSocketConnectionLiveness`
pub data Liveness : Type 0 where
  alive dead : Liveness

-- A client: `isAlive`, whether `terminate` was called, the pings that were sent, the status that it
-- was closed with, and the milliseconds until the timeout of its watch, while it is watched.
pub record SocketClient : Type 0 where
  pub is_alive : Bool
  pub is_terminated : Bool
  pub pings : ℕ
  pub closed_with : Option ℕ
  pub timeout_in : Option ℕ

-- `client.isAlive = true` and `handleClientBrokenConnection(client).subscribe()`
abbrev pub connected : SocketClient
connected = record {
  is_alive = true;
  is_terminated = false;
  pings = 0;
  closed_with = none;
  timeout_in = some heart_beat_terminate_interval;
}

-- `handleServerBrokenConnections` on one client, by `client.isAlive`
unfoldable pub check_if : Bool → SocketClient → SocketClient × Liveness
check_if false client = (record client { is_alive = false; is_terminated = true }, dead)
check_if true client = (record client { is_alive = false; pings = client.pings + 1 }, alive)

unfoldable pub check_client : SocketClient → SocketClient × Liveness
unfolding check_if
check_client client = check_if client.is_alive client

-- the interval on all clients of the server, in their order
unfoldable pub check_clients : List SocketClient → List SocketClient × List Liveness
unfolding check_client
check_clients [] = ([], [])
check_clients (client ∷ clients) =
    let checked = check_client client in
    let rest = check_clients clients in (checked.0 ∷ rest.0, checked.1 ∷ rest.1)

-- an `open`, `ping` or `pong` of the client: `handleClientBrokenConnection`, while it is subscribed
unfoldable pub beat_if : Option ℕ → SocketClient → SocketClient
beat_if none client = client
beat_if (some left) client = record client {
  is_alive = true;
  timeout_in = some heart_beat_terminate_interval;
}

unfoldable pub beat : SocketClient → SocketClient
unfolding beat_if
beat client = beat_if client.timeout_in client

-- the time that passes without an event of the client; when the timeout comes, `catchError`
-- terminates the client, and the watch ends
unfoldable pub pass_if : ℕ → Option ℕ → SocketClient → SocketClient
pass_if time none client = client
pass_if time (some left) client =
    if leb left time
    then record client { is_terminated = true; timeout_in = none }
    else record client { timeout_in = some (left - time) }

unfoldable pub pass : ℕ → SocketClient → SocketClient
unfolding pass_if
pass time client = pass_if time client.timeout_in client

-- the event `close` of the client ends the watch
unfoldable pub client_closes : SocketClient → SocketClient
client_closes client = record client { timeout_in = none }

-- `error.status || WebSocketStatus.INTERNAL_ERROR`
unfoldable pub close_status : Option ℕ → ℕ
close_status none = 1011
close_status (some status) = if eqb status 0 then 1011 else status

-- `handleClientValidationError`
unfoldable pub reject_client : Option ℕ → SocketClient → SocketClient
unfolding close_status
reject_client status client = record client {
  is_alive = false;
  closed_with = some (close_status status);
}

-- What happens to a client.
pub data Beat : Type 0 where
  ticks beats : Beat
  passes : ℕ → Beat

unfoldable pub step : Beat → SocketClient → SocketClient
unfolding check_client beat pass
step ticks client = (check_client client).0
step beats client = beat client
step (passes time) client = pass time client

unfoldable pub steps : List Beat → SocketClient → SocketClient
unfolding step
steps [] client = client
steps (b ∷ bs) client = steps bs (step b client)
