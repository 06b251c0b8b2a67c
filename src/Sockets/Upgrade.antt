-- ===== src/Sockets/Upgrade.antt =====
-- packages/websockets/src/operators/mapToServer/websocket.mapToServer.operator.ts: the upgrade of a
-- connection, over the test of a path that `pathToRegexp` gives for each mapping. A server is a
-- number.
pub mod Matching
use marble_js.Base.{
  ℕ, Option, none, some, Bool, true, false, not, List, [], ◌∷◌, ◌++◌, Text, codes, ◌==◌, or_else,
  any, keep, map, if◌then◌else◌,
}

-- An entry of `mapping`: the test of its path, and its server, if there is one.
pub record ServerMapping : Type 0 where
  pub path_to_match : Text → Bool
  pub server : Option ℕ

-- What is read of the request of an `UpgradeEvent`.
pub record UpgradeRequest : Type 0 where
  pub upgrade : Option Text
  pub url : Option Text

pub data UpgradeCall : Type 0 where
  handle_upgrade : ℕ → UpgradeCall
  destroy_socket : UpgradeCall

-- `request.headers.upgrade === 'websocket'`
abbrev pub is_websocket : Option Text → Bool
is_websocket none = false
is_websocket (some t) = t == codes "websocket"

-- What an event led to, and whether it made the stream fail.
pub record Upgrading : Type 0 where
  pub calls : List UpgradeCall
  pub has_failed : Bool

abbrev pub then_call : UpgradeCall → Upgrading → Upgrading
then_call call rest = record rest { calls = call ∷ rest.calls }

-- `toArray` and `socket.destroy()`: reached when no upgrade threw, for no match
abbrev pub destroyed_unless : List ServerMapping → List UpgradeCall
destroyed_unless [] = destroy_socket ∷ []
destroyed_unless (m ∷ mapping) = []

-- `handleUpgrade` of the package `ws` may throw: by the servers that were called for the socket
-- before, in the order of their calls, and the server.
module _ (throws : List ℕ → ℕ → Bool) where
  -- the mappings whose path matches, each with `handleUpgrade` of its server, and whether there is
  -- one; an error that `tap` throws ends the stream
  unfoldable pub upgrade_matched : List ℕ → List ServerMapping → Upgrading
  upgrade_matched called [] = record { calls = []; has_failed = false }
  upgrade_matched called (m ∷ mapping) = elim m.server [
    | none ↦ upgrade_matched called mapping
    | some server ↦
        let rest = upgrade_matched (called ++ server ∷ []) mapping in
        then_call (handle_upgrade server)
          (if throws called server then record { calls = []; has_failed = true } else rest)
  ]

  -- `mapToServer` on one event
  unfoldable pub map_to_server : List ServerMapping → UpgradeRequest → Upgrading
  unfolding upgrade_matched
  map_to_server mapping request =
      if not (is_websocket request.upgrade)
      then record { calls = []; has_failed = false }
      else let url = or_else request.url (codes "") in
        let matched = keep (λ m. m.path_to_match url) mapping in
        let upgrading = upgrade_matched [] matched in
        if upgrading.has_failed
        then upgrading
        else record upgrading { calls = upgrading.calls ++ destroyed_unless matched }

  -- the calls for each event, one event after the other; a stream that failed handles no event
  unfoldable pub map_all_to_server :
      List ServerMapping → List UpgradeRequest → List (List UpgradeCall)
  unfolding map_to_server
  map_all_to_server mapping [] = []
  map_all_to_server mapping (request ∷ requests) =
      let upgrading = map_to_server mapping request in
      let rest = map_all_to_server mapping requests in
      upgrading.calls ∷ (if upgrading.has_failed then map (λ r. []) requests else rest)
