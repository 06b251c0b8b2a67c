-- ===== src/Core/Events/Tests.antt =====
-- The operators of packages/core/src/operators on concrete events, with numbers for payloads and
-- errors.
use marble_js.Base.{ℕ, ◌≡◌, Option, none, some, true, [], ◌∷◌, codes, eqb, if◌then◌else◌}
use marble_js.Core.Events.{Event, Called, threw, returned, act}
use marble_js.Core.Events.Acts.{none-Survives, act-failure}

abbrev TestEvent : Type 0
TestEvent = Event ℕ ℕ ℕ

abbrev plain : TestEvent
plain = record { event_type = codes "PLAIN"; payload = some 1; error = none; metadata = none }

abbrev failing : TestEvent
failing = record { event_type = codes "FAIL"; payload = some 0; error = none; metadata = some 9 }

-- a call that throws on the payload 0
abbrev call : TestEvent → Called ℕ ℕ ℕ
call e = elim e.payload [
  | some n ↦ if eqb n 0 then threw 5 else returned (record { events = e ∷ []; failure = none })
  | none ↦ threw 6
]

abbrev no_handler : Option (ℕ → TestEvent → Called ℕ ℕ ℕ)
no_handler = none

act-failure_example :
    (act (λ e. true) (λ e. some e) 1 call no_handler (failing ∷ plain ∷ [])).failure ≡ none
act-failure_example =
    act-failure (λ e. true) (λ e. some e) 1 call no_handler
      (none-Survives (λ e. true) (λ e. some e) 1) (failing ∷ plain ∷ [])
