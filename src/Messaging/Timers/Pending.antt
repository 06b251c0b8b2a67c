-- ===== src/Messaging/Timers/Pending.antt =====
-- Which timers are pending in the states that packages/messaging/src/eventStore/eventTimerStore.ts
-- and the acknowledgements of packages/messaging/src/ack reach.
use marble_js.Base.{
  ℕ, ◌+◌, ◌<◌, ◌≡◌, refl, ◌∙◌, ap, Option, none, some, Bool, true, false, not, List, [], ◌∷◌, Text,
  lookup, insert, erase, keep, eqb, eqb_iff, All, ==_refl, ==_iff, Bool-cases, inl, inr, arith,
  lookup-insert, lookup-erase, ◌⊎◌,
}
use marble_js.Messaging.Timers.{
  MetaEvent, Timer, TimerState, correlation_id_of, set_timer, register_key, register, without_timer,
  clear_entry, unregister_key, unregister, ack_event, nack_event, nack_and_resend_event, fire,
  handle_event_rejection, reject_unhandled, initial, call_client, raw_of, ack_message, nack_message,
  ClientCall,
}

eqb_refl : (n : ℕ) → eqb n n ≡ true
eqb_refl n = (eqb_iff n n).1 refl

module _ {R : Type 0} where
  -- The steps of a server: an event arrives, an event is acknowledged in one of the three ways, and
  -- a timer fires, pending or not.
  pub data Reachable : TimerState R → Type 0 where
    start : Reachable initial
    arrive :
        {st : TimerState R} (enabled : Bool) (event : MetaEvent R)
        → Reachable st
        → Reachable (reject_unhandled enabled event st)
    ack :
        {st : TimerState R} (event : MetaEvent R) → Reachable st → Reachable (ack_event event st).1
    nack :
        {st : TimerState R} (event : MetaEvent R) → Reachable st → Reachable (nack_event event st).1
    resend :
        {st : TimerState R} (event : MetaEvent R)
        → Reachable st
        → Reachable (nack_and_resend_event event st).1
    timeout : {st : TimerState R} (t : Timer R) → Reachable st → Reachable (fire t st)

  -- No id of a pending timer is used again.
  abbrev pub IsOlder : ℕ → List (Timer R) → Type 0
  IsOlder n ts = All (λ t. t.timer_id < n) ts

  keep-IsOlder :
      (p : Timer R → Bool) (n : ℕ) (ts : List (Timer R)) → IsOlder n ts → IsOlder n (keep p ts)
  keep-IsOlder p n [] h = tt
  keep-IsOlder p n (t ∷ ts) h = elim (Bool-cases (p t)) [
    | inl kept ↦ rw kept (h.0, keep-IsOlder p n ts h.1)
    | inr dropped ↦ rw dropped (keep-IsOlder p n ts h.1)
  ]

  later-IsOlder : (n : ℕ) (ts : List (Timer R)) → IsOlder n ts → IsOlder (n + 1) ts
  later-IsOlder n [] h = tt
  later-IsOlder n (t ∷ ts) h = (omega arith, later-IsOlder n ts h.1)

  abbrev Fresh : TimerState R → Type 0
  Fresh st = IsOlder st.next_id st.pending

  register_key-Fresh :
      (k : Option Text) (event : MetaEvent R) (st : TimerState R)
      → Fresh st
      → Fresh (register_key k event st)
  unfolding register_key set_timer
  register_key-Fresh none event st h = h
  register_key-Fresh (some []) event st h = h
  register_key-Fresh (some (c ∷ s)) event st h =
      (omega arith, later-IsOlder st.next_id st.pending h)

  clear_entry-Fresh :
      (k : Text) (o : Option ℕ) (st : TimerState R) → Fresh st → Fresh (clear_entry k o st)
  unfolding clear_entry
  clear_entry-Fresh k none st h = h
  clear_entry-Fresh k (some i) st h =
      keep-IsOlder (λ t. not (eqb t.timer_id i)) st.next_id st.pending h

  unregister_key-Fresh :
      (k : Option Text) (st : TimerState R) → Fresh st → Fresh (unregister_key k st)
  unfolding unregister_key
  unregister_key-Fresh none st h = h
  unregister_key-Fresh (some k) st h = clear_entry-Fresh k (lookup k st.store) st h

  Reachable-Fresh : {st : TimerState R} → Reachable st → Fresh st
  unfolding reject_unhandled register ack_event nack_event nack_and_resend_event unregister fire
      handle_event_rejection
  Reachable-Fresh start = tt
  Reachable-Fresh (arrive {st} true event r) =
      register_key-Fresh (correlation_id_of event) event (handle_event_rejection event st)
        (Reachable-Fresh r)
  Reachable-Fresh (arrive false event r) = Reachable-Fresh r
  Reachable-Fresh (ack {st} event r) =
      unregister_key-Fresh (correlation_id_of event) (call_client (ack_message (raw_of event)) st)
        (Reachable-Fresh r)
  Reachable-Fresh (nack {st} event r) =
      unregister_key-Fresh (correlation_id_of event)
        (call_client (nack_message (raw_of event) false) st) (Reachable-Fresh r)
  Reachable-Fresh (resend {st} event r) =
      unregister_key-Fresh (correlation_id_of event)
        (call_client (nack_message (raw_of event) true) st) (Reachable-Fresh r)
  Reachable-Fresh (timeout {st} t r) =
      unregister_key-Fresh (correlation_id_of t.event)
        (record st { store = erase t.key st.store; pending = without_timer t.timer_id st.pending })
        (keep-IsOlder (λ u. not (eqb u.timer_id t.timer_id)) st.next_id st.pending
          (Reachable-Fresh r))

  without_timer-IsOlder : (n : ℕ) (ts : List (Timer R)) → IsOlder n ts → without_timer n ts ≡ ts
  without_timer-IsOlder n [] h = refl
  without_timer-IsOlder n (t ∷ ts) h =
      let apart : eqb t.timer_id n ≡ false = ground (arith, h.0) in
      rw apart (ap (λ us. t ∷ us) (without_timer-IsOlder n ts h.1))

  lookup-inserted : (k : Text) (i : ℕ) (st : TimerState R) → lookup k (insert k i st.store) ≡ some i
  lookup-inserted k i st = lookup-insert k k i st.store ∙ rw (==_refl k) refl

  -- what a registered timer is cancelled to
  cancel-pending :
      (k : Text) (event : MetaEvent R) (x : ClientCall R) (st : TimerState R)
      → Fresh st
      → (unregister_key (some k) (call_client x (set_timer k event st))).pending ≡ st.pending
  unfolding unregister_key set_timer clear_entry
  cancel-pending k event x st h =
      rw (lookup-inserted k st.next_id st)
        (rw (eqb_refl st.next_id) (without_timer-IsOlder st.next_id st.pending h))

  cancel-store :
      (k : Text) (event : MetaEvent R) (x : ClientCall R) (st : TimerState R) (j : Text)
      → lookup k st.store ≡ none
      → lookup j (unregister_key (some k) (call_client x (set_timer k event st))).store
        ≡ lookup j st.store
  unfolding unregister_key set_timer clear_entry
  cancel-store k event x st j new = rw (lookup-inserted k st.next_id st) (
      lookup-erase k j (insert k st.next_id st.store)
      ∙ rw (lookup-insert k j st.next_id st.store) (ground (arith, ==_iff k j, new)))

  -- the client calls of an event that arrives and is then acknowledged
  settled_calls :
      (k : Text) (event : MetaEvent R) (x : ClientCall R) (st : TimerState R)
      → (unregister_key (some k) (call_client x (set_timer k event st))).calls ≡ x ∷ st.calls
  unfolding unregister_key set_timer clear_entry
  settled_calls k event x st = rw (lookup-inserted k st.next_id st) refl

  -- In every reachable state, an event that arrives with a correlation id that has no timer, and is
  -- then acknowledged, leaves the pending timers and the entries of the store as they were. The
  -- client is called twice: to reject the event when it arrives, and then to acknowledge it.
  pub ack_event-reject_unhandled :
      {st : TimerState R} (c : ℕ) (s : Text) (event : MetaEvent R)
      → Reachable st
      → correlation_id_of event ≡ some (c ∷ s)
      → lookup (c ∷ s) st.store ≡ none
      → ((ack_event event (reject_unhandled true event st)).1.pending ≡ st.pending)
        × ((j : Text)
            → lookup j (ack_event event (reject_unhandled true event st)).1.store
              ≡ lookup j st.store)
        × ((ack_event event (reject_unhandled true event st)).1.calls
            ≡ ack_message (raw_of event) ∷ nack_message (raw_of event) false ∷ st.calls)
  unfolding reject_unhandled handle_event_rejection register register_key set_timer ack_event
      unregister unregister_key clear_entry
  ack_event-reject_unhandled {st} c s event r h new =
      let nacked = handle_event_rejection event st in
      let call = ack_message (raw_of event) in
      rw h (
        cancel-pending (c ∷ s) event call nacked (Reachable-Fresh r),
        (λ j. cancel-store (c ∷ s) event call nacked j new),
        settled_calls (c ∷ s) event call nacked,
      )

  -- a pending timer with the id
  abbrev pub IsPending : ℕ → List (Timer R) → Type 0
  IsPending i [] = ⊥
  IsPending i (t ∷ ts) = (t.timer_id ≡ i) ⊎ IsPending i ts
