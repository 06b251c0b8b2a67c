-- ===== src/Sockets/Upgrade/Matching.antt =====
-- Which servers upgrade a connection:
-- packages/websockets/src/operators/mapToServer/websocket.mapToServer.operator.ts.
use marble_js.Base.{
  ◌≡◌, refl, ap, ◌∙◌, none, some, Bool, true, false, ℕ, List, [], ◌∷◌, ◌++◌, Text, codes,
  Option-cases, inl, inr, or_else, keep, map, if◌then◌else◌,
}
use marble_js.Sockets.Upgrade.{
  ServerMapping, UpgradeRequest, handle_upgrade, is_websocket, Upgrading, then_call,
  upgrade_matched, map_to_server, map_all_to_server,
}

-- The servers of the mappings that have one.
abbrev pub servers_of : List ServerMapping → List ℕ
servers_of [] = []
servers_of (m ∷ mapping) = elim m.server [
  | none ↦ servers_of mapping
  | some server ↦ server ∷ servers_of mapping
]

abbrev pub matching : Text → List ServerMapping → List ServerMapping
matching url mapping = keep (λ m. m.path_to_match url) mapping

-- The calls of the servers, one after the other, until one throws.
abbrev pub upgrade_servers : (List ℕ → ℕ → Bool) → List ℕ → List ℕ → Upgrading
upgrade_servers throws called [] = record { calls = []; has_failed = false }
upgrade_servers throws called (s ∷ servers) =
    let rest = upgrade_servers throws (called ++ s ∷ []) servers in
    then_call (handle_upgrade s)
      (if throws called s then record { calls = []; has_failed = true } else rest)

module _ (throws : List ℕ → ℕ → Bool) where
  upgrade_matched_lem :
      (called : List ℕ) (mapping : List ServerMapping)
      → upgrade_matched throws called mapping ≡ upgrade_servers throws called (servers_of mapping)
  unfolding upgrade_matched
  upgrade_matched_lem called [] = refl
  upgrade_matched_lem called (m ∷ mapping) = elim (Option-cases m.server) [
    | inl absent ↦ rw absent (upgrade_matched_lem called mapping)
    | inr (server, given) ↦ rw given (rw (upgrade_matched_lem (called ++ server ∷ []) mapping) refl)
  ]

  -- Two mappings with servers that match one url end the stream: when the first `handleUpgrade` of a
  -- socket does not throw and a second one does, both servers are called for the request, the socket
  -- is not destroyed, and no later request is upgraded or destroyed, whatever it asks for.
  pub map_all_to_server-matched_twice :
      (mapping : List ServerMapping) (request : UpgradeRequest) (requests : List UpgradeRequest)
      (first second : ℕ) (servers : List ℕ)
      → throws [] first ≡ false
      → throws (first ∷ []) second ≡ true
      → is_websocket request.upgrade ≡ true
      → servers_of (matching (or_else request.url (codes "")) mapping) ≡ first ∷ second ∷ servers
      → map_all_to_server throws mapping (request ∷ requests)
        ≡ (handle_upgrade first ∷ handle_upgrade second ∷ []) ∷ map (λ r. []) requests
  unfolding map_all_to_server map_to_server
  map_all_to_server-matched_twice mapping request requests first second servers once twice asks
        matches =
      let failed =
        upgrade_matched_lem [] (matching (or_else request.url (codes "")) mapping)
        ∙ ap (upgrade_servers throws []) matches in
      rw asks (rw failed (rw once (rw twice refl)))
