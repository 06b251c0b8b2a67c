-- ===== src/Sockets/Heartbeat/Silence.antt =====
-- A client that does not answer: packages/websockets/src/server/websocket.server.helper.ts.
use marble_js.Base.{
  ℕ, ◌+◌, ◌-◌, ◌≡◌, ◌≤◌, ◌<◌, ap, ◌∙◌, refl, inl, inr, Option, none, some, Bool, true, false, List,
  [], ◌∷◌, leb, Bool-cases, arith,
}
use marble_js.Sockets.Heartbeat.{
  SocketClient, Beat, ticks, beats, passes, check_if, check_client, beat, beat_if, pass, pass_if,
  step, steps,
}

-- The time of a run in which the client is silent, none when it is not.
abbrev pub Silent : List Beat → Type 0
Silent [] = Unit
Silent (ticks ∷ bs) = Silent bs
Silent (beats ∷ bs) = ⊥
Silent (passes time ∷ bs) = Silent bs

abbrev pub elapsed : List Beat → ℕ
elapsed [] = 0
elapsed (ticks ∷ bs) = elapsed bs
elapsed (beats ∷ bs) = elapsed bs
elapsed (passes time ∷ bs) = time + elapsed bs

check_if-is_terminated :
    (b : Bool) (client : SocketClient)
    → client.is_terminated ≡ true
    → (check_if b client).0.is_terminated ≡ true
unfolding check_if
check_if-is_terminated true client h = h
check_if-is_terminated false client h = refl

beat_if-is_terminated :
    (left : Option ℕ) (client : SocketClient)
    → client.is_terminated ≡ true
    → (beat_if left client).is_terminated ≡ true
unfolding beat_if
beat_if-is_terminated none client h = h
beat_if-is_terminated (some left) client h = h

pass_if-is_terminated :
    (time : ℕ) (left : Option ℕ) (client : SocketClient)
    → client.is_terminated ≡ true
    → (pass_if time left client).is_terminated ≡ true
unfolding pass_if
pass_if-is_terminated time none client h = h
pass_if-is_terminated time (some left) client h = elim (Bool-cases (leb left time)) [
  | inl due ↦ rw due refl
  | inr early ↦ rw early h
]

step-is_terminated :
    (b : Beat) (client : SocketClient)
    → client.is_terminated ≡ true
    → (step b client).is_terminated ≡ true
unfolding step check_client beat pass
step-is_terminated ticks client h = check_if-is_terminated client.is_alive client h
step-is_terminated beats client h = beat_if-is_terminated client.timeout_in client h
step-is_terminated (passes time) client h = pass_if-is_terminated time client.timeout_in client h

steps-is_terminated :
    (bs : List Beat) (client : SocketClient)
    → client.is_terminated ≡ true
    → (steps bs client).is_terminated ≡ true
unfolding steps
steps-is_terminated [] client h = h
steps-is_terminated (b ∷ bs) client h = steps-is_terminated bs _ (step-is_terminated b client h)

check_if-timeout_in :
    (b : Bool) (client : SocketClient) → (check_if b client).0.timeout_in ≡ client.timeout_in
unfolding check_if
check_if-timeout_in true client = refl
check_if-timeout_in false client = refl

pub pass-early :
    (time left : ℕ) (client : SocketClient)
    → client.timeout_in ≡ some left
    → time < left
    → pass time client ≡ record client { timeout_in = some (left - time) }
unfolding pass pass_if
pass-early time left client watched early =
    let before : leb left time ≡ false = ground (arith, early) in rw watched (rw before refl)

pass-due :
    (time left : ℕ) (client : SocketClient)
    → client.timeout_in ≡ some left
    → left ≤ time
    → pass time client ≡ record client { is_terminated = true; timeout_in = none }
unfolding pass pass_if
pass-due time left client watched late =
    let due : leb left time ≡ true = ground (arith, late) in rw watched (rw due refl)

-- A watched client that is silent for as long as its timeout is terminated, whenever the interval
-- of the server ticks in between, and stays so.
pub steps-Silent :
    (bs : List Beat) (client : SocketClient) (left : ℕ)
    → client.timeout_in ≡ some left
    → Silent bs
    → left ≤ elapsed bs
    → 1 ≤ left
    → (steps bs client).is_terminated ≡ true
unfolding steps step check_client pass
steps-Silent [] client left watched silent due positive =
    let never : ⊥ = omega (arith, due, positive) in elim never [ ]
steps-Silent (ticks ∷ bs) client left watched silent due positive =
    steps-Silent bs _ left (rw (check_if-timeout_in client.is_alive client) watched) silent due
      positive
steps-Silent (beats ∷ bs) client left watched silent due positive = elim silent [ ]
steps-Silent (passes time ∷ bs) client left watched silent due positive =
    elim (Bool-cases (leb left time)) [
      | inl over ↦
          let late : left ≤ time = ground (arith, over) in
          ap (λ c. (steps bs c).is_terminated) (pass-due time left client watched late)
          ∙ steps-is_terminated bs _ refl
      | inr early ↦
          let soon : time < left = ground (arith, early) in
          ap (λ c. (steps bs c).is_terminated) (pass-early time left client watched soon)
          ∙ steps-Silent bs _ (left - time) refl silent (omega (arith, due, soon))
              (omega (arith, soon))
    ]
