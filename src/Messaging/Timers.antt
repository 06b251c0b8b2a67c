-- ===== src/Messaging/Timers.antt =====
-- packages/messaging/src/eventStore/eventTimerStore.ts, ack/ack.ts and
-- middlewares/messaging.ack.middleware.ts: the timers of unacknowledged events, with `setTimeout` as
-- a list of pending timers and a step that fires one of them. Times and logging are not modelled.
pub mod Pending
use marble_js.Base.{
  ℕ, ◌+◌, Option, none, some, Bool, true, false, not, ◌&&◌, List, [], ◌∷◌, ◌++◌, Text, Dict, lookup,
  insert, erase, keep, eqb, if◌then◌else◌,
}

-- `EventMetadata`, over the raw messages
pub record EventMetadata (R : Type 0) : Type 0 where
  pub raw : Option R
  pub correlation_id : Option Text
  pub reply_to : Option Text

-- What the store and the acknowledgement read of an event.
pub record MetaEvent (R : Type 0) : Type 0 where
  pub event_type : Text
  pub metadata : Option (EventMetadata R)

pub record Timer (R : Type 0) : Type 0 where
  pub timer_id : ℕ
  pub key : Text
  pub event : MetaEvent R

-- A call of the client of the transport; an error that it throws is dropped.
pub data ClientCall (R : Type 0) : Type 0 where
  ack_message : Option R → ClientCall R
  nack_message : Option R → Bool → ClientCall R

-- `store` is the map of the event timer store, `pending` what `setTimeout` waits for.
pub record TimerState (R : Type 0) : Type 0 where
  pub store : Dict ℕ
  pub pending : List (Timer R)
  pub next_id : ℕ
  pub calls : List (ClientCall R)

module _ {R : Type 0} where
  -- `event.metadata?.correlationId` and `event.metadata?.raw`
  abbrev pub correlation_id_of : MetaEvent R → Option Text
  correlation_id_of e = elim e.metadata [ none ↦ none | some m ↦ m.correlation_id ]

  abbrev pub raw_of : MetaEvent R → Option R
  raw_of e = elim e.metadata [ none ↦ none | some m ↦ m.raw ]

  -- `setTimer` and `setTimerEntry` for a key
  unfoldable pub set_timer : Text → MetaEvent R → TimerState R → TimerState R
  set_timer key event st = record st {
    store = insert key st.next_id st.store;
    pending = record { timer_id = st.next_id; key = key; event = event } ∷ st.pending;
    next_id = st.next_id + 1;
  }

  -- `key ? … : IO.of(undefined)`
  unfoldable pub register_key : Option Text → MetaEvent R → TimerState R → TimerState R
  unfolding set_timer
  register_key none event st = st
  register_key (some []) event st = st
  register_key (some (c ∷ s)) event st = set_timer (c ∷ s) event st

  unfoldable pub register : MetaEvent R → TimerState R → TimerState R
  unfolding register_key
  register event st = register_key (correlation_id_of event) event st

  abbrev pub without_timer : ℕ → List (Timer R) → List (Timer R)
  without_timer i ts = keep (λ t. not (eqb t.timer_id i)) ts

  -- `clearTimer` and `deleteTimerEntry` for the timer that the store has for a key
  unfoldable pub clear_entry : Text → Option ℕ → TimerState R → TimerState R
  clear_entry key none st = st
  clear_entry key (some i) st = record st {
    store = erase key st.store;
    pending = without_timer i st.pending;
  }

  unfoldable pub unregister_key : Option Text → TimerState R → TimerState R
  unfolding clear_entry
  unregister_key none st = st
  unregister_key (some key) st = clear_entry key (lookup key st.store) st

  unfoldable pub unregister : MetaEvent R → TimerState R → TimerState R
  unfolding unregister_key
  unregister event st = unregister_key (correlation_id_of event) st

  abbrev pub call_client : ClientCall R → TimerState R → TimerState R
  call_client c st = record st { calls = c ∷ st.calls }

  -- `ackEvent`, `nackEvent` and `nackAndResendEvent` of ack.ts, built and run: the client is called,
  -- then the timer is unregistered, and all give `true`
  unfoldable pub ack_event : MetaEvent R → TimerState R → Bool × TimerState R
  unfolding unregister
  ack_event event st = (true, unregister event (call_client (ack_message (raw_of event)) st))

  unfoldable pub nack_event : MetaEvent R → TimerState R → Bool × TimerState R
  unfolding unregister
  nack_event event st =
      (true, unregister event (call_client (nack_message (raw_of event) false) st))

  unfoldable pub nack_and_resend_event : MetaEvent R → TimerState R → Bool × TimerState R
  unfolding unregister
  nack_and_resend_event event st =
      (true, unregister event (call_client (nack_message (raw_of event) true) st))

  -- A timer that fires: it starts the handler of `rejectUnhandled$`, whose client call was made when
  -- the handler was built, and which goes on after `deleteTimerEntry`, with `unregisterTask`.
  unfoldable pub fire : Timer R → TimerState R → TimerState R
  unfolding unregister
  fire t st =
      unregister t.event
        (record st { store = erase t.key st.store; pending = without_timer t.timer_id st.pending })

  -- `handleEventRejection`, as it is built: `nackTask` calls the client at once (`E.tryCatch` runs
  -- what it is given), and leaves the rest to whoever runs the task.
  unfoldable pub handle_event_rejection : MetaEvent R → TimerState R → TimerState R
  handle_event_rejection event st = call_client (nack_message (raw_of event) false) st

  -- `rejectUnhandled$` on an event; the condition is that the connection is AMQP and expects
  -- acknowledgements.
  unfoldable pub reject_unhandled : Bool → MetaEvent R → TimerState R → TimerState R
  unfolding register handle_event_rejection
  reject_unhandled is_ack_enabled event st =
      if is_ack_enabled then register event (handle_event_rejection event st) else st

abbrev pub initial : {R : Type 0} → TimerState R
initial = record { store = []; pending = []; next_id = 0; calls = [] }
