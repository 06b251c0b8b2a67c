-- ===== src/Sockets/Heartbeat/Rounds.antt =====
-- A client that answers every ping: packages/websockets/src/server/websocket.server.helper.ts.
use marble_js.Base.{
  ℕ, ◌+◌, ◌-◌, ◌≡◌, ◌≤◌, ◌<◌, refl, ap, ◌∙◌, length, some, true, false, List, [], ◌∷◌, ◌++◌, leb,
  arith,
}
use marble_js.Sockets.Heartbeat.{
  SocketClient, Beat, ticks, beats, passes, check_if, check_client, beat, beat_if, pass, pass_if,
  step, steps, heart_beat_interval, heart_beat_terminate_interval,
}
use marble_js.Sockets.Heartbeat.Silence.{pass-early}

-- One interval of the server: its tick, the answer of the client after the latency, and the rest.
abbrev pub round : ℕ → List Beat
round latency = ticks ∷ passes latency ∷ beats ∷ passes (heart_beat_interval - latency) ∷ []

abbrev pub rounds : List ℕ → List Beat
rounds [] = []
rounds (latency ∷ latencies) = round latency ++ rounds latencies

-- Every answer comes within the interval, and no more than a second later than the one before.
abbrev pub AreSteady : ℕ → List ℕ → Type 0
AreSteady before [] = Unit
AreSteady before (latency ∷ latencies) =
    (latency ≤ heart_beat_interval) × (latency < before + 1000) × AreSteady latency latencies

-- the client after a round
abbrev after_round : ℕ → SocketClient → SocketClient
after_round latency client = record client {
  is_alive = true;
  pings = client.pings + 1;
  timeout_in = some (latency + 1000);
}

steps-round :
    (left latency : ℕ) (client : SocketClient)
    → latency ≤ heart_beat_interval
    → latency < left
    → client.is_alive ≡ true
    → client.timeout_in ≡ some left
    → steps (round latency) client ≡ after_round latency client
unfolding steps step check_client check_if beat beat_if
steps-round left latency client within early is watched =
    let pinged = record client { is_alive = false; pings = client.pings + 1 } in
    let waited = record pinged { timeout_in = some (left - latency) } in
    let answered = record pinged {
      is_alive = true;
      timeout_in = some heart_beat_terminate_interval;
    } in
    let rest = heart_beat_interval - latency in
    let first : rest < heart_beat_terminate_interval = omega (arith, within) in
    let remains : heart_beat_terminate_interval - rest ≡ latency + 1000 = omega (arith, within) in
    ap (λ b. pass rest (beat (pass latency (check_if b client).0))) is
    ∙ ap (λ c. pass rest (beat c)) (pass-early latency left pinged watched early)
    ∙ pass-early rest heart_beat_terminate_interval answered refl first
    ∙ ap (λ t. record answered { timeout_in = some t }) remains

steps-append :
    (xs bs : List Beat) (client : SocketClient)
    → steps (xs ++ bs) client ≡ steps bs (steps xs client)
unfolding steps
steps-append [] bs client = refl
steps-append (x ∷ xs) bs client = steps-append xs bs (step x client)

-- A client that answers every ping within the interval of the server, each time less than a second
-- later than the time before, stays alive and is never terminated, and is pinged once in every
-- interval.
pub steps-rounds :
    (before : ℕ) (latencies : List ℕ) (client : SocketClient)
    → AreSteady before latencies
    → client.is_alive ≡ true
    → client.timeout_in ≡ some (before + 1000)
    → ((steps (rounds latencies) client).is_terminated ≡ client.is_terminated)
      × ((steps (rounds latencies) client).is_alive ≡ true)
      × ((steps (rounds latencies) client).pings ≡ client.pings + length latencies)
unfolding steps
steps-rounds before [] client steady is watched = (refl, is, omega arith)
steps-rounds before (latency ∷ latencies) client steady is watched =
    let next = after_round latency client in
    let path =
      steps-append (round latency) (rounds latencies) client
      ∙ ap (steps (rounds latencies))
          (steps-round (before + 1000) latency client steady.0 steady.1 is watched) in
    let rest = steps-rounds latency latencies next steady.2 refl refl in
    (
      ap (λ c. c.is_terminated) path ∙ rest.0,
      ap (λ c. c.is_alive) path ∙ rest.1,
      ap (λ c. c.pings) path ∙ rest.2 ∙ omega arith,
    )

pass-late :
    (before latency : ℕ) (client : SocketClient)
    → before + 1000 ≤ latency
    → client.is_alive ≡ true
    → client.timeout_in ≡ some (before + 1000)
    → (steps (round latency) client).is_terminated ≡ true
unfolding steps step check_client check_if beat beat_if pass pass_if
pass-late before latency client late is watched =
    let due : leb (before + 1000) latency ≡ true = ground (arith, late) in
    rw is (rw watched (rw due refl))

-- A client that answers a ping in time and within the interval, and the next one a second or more
-- later than that, is not terminated by the first round and is terminated by the second, though
-- both answers come within the interval of the server.
pub steps-late :
    (left before latency : ℕ) (client : SocketClient)
    → before ≤ heart_beat_interval
    → before < left
    → latency ≤ heart_beat_interval
    → before + 1000 ≤ latency
    → client.is_alive ≡ true
    → client.timeout_in ≡ some left
    → ((steps (round before) client).is_terminated ≡ client.is_terminated)
      × ((steps (round before ++ round latency) client).is_terminated ≡ true)
steps-late left before latency client first early within late is watched =
    let answered = steps-round left before client first early is watched in
    (
      ap (λ c. c.is_terminated) answered,
      ap (λ c. c.is_terminated)
            (steps-append (round before) (round latency) client
              ∙ ap (steps (round latency)) answered)
          ∙ pass-late before latency (after_round before client) late refl refl,
    )
