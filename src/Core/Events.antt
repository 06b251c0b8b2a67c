-- ===== src/Core/Events.antt =====
-- packages/core/src/event and packages/core/src/operators: events, their creators, and the operators
-- `matchEvent` and `act` on streams whose inner streams are synchronous, as the list of what they
-- emit and the error that ends them.
mod Acts
mod Tests
use marble_js.Base.{
  Option, none, some, Bool, true, false, not, List, [], ◌∷◌, ◌++◌, map, Text, codes, ◌==◌, includes,
  any, keep, or_else, if◌then◌else◌,
}

-- `Event`, over its payloads, errors and metadata
pub record Event (P E M : Type 0) : Type 0 where
  pub event_type : Text
  pub payload : Option P
  pub error : Option E
  pub metadata : Option M

-- `createEvent`: the event creator on its arguments, `{}` without a payload creator
unfoldable pub create_event : {A P E M : Type 0} → P → Text → Option (A → P) → A → Event P E M
create_event empty t none a = record {
  event_type = t;
  payload = some empty;
  error = none;
  metadata = none;
}
create_event empty t (some creator) a = record {
  event_type = t;
  payload = some (creator a);
  error = none;
  metadata = none;
}

-- What `matchEvent` takes: a codec with the literal of its type, a text, or what has a `type`.
pub data MatchingEvent : Type 0 where
  event_codec event_text event_like : Text → MatchingEvent

module _ {P E M : Type 0} where
  unfoldable pub matches : Event P E M → MatchingEvent → Bool
  matches incoming (event_codec t) = t == incoming.event_type
  matches incoming (event_text t) = t == incoming.event_type
  matches incoming (event_like t) = t == incoming.event_type

  unfoldable pub match_event : List MatchingEvent → List (Event P E M) → List (Event P E M)
  unfolding matches
  match_event events source = keep (λ incoming. any (matches incoming) events) source

-- What a stream emits, and the error that ends it, if one does.
pub record Emitted (P E M : Type 0) : Type 0 where
  pub events : List (Event P E M)
  pub failure : Option E

-- What a call gives that is not under a `try` of its own.
pub data Called (P E M : Type 0) : Type 0 where
  threw : E → Called P E M
  returned : Emitted P E M → Called P E M

abbrev pub default_error_suffix : Text
default_error_suffix = codes "_UNHANDLED_ERROR"

-- `event.error` as a condition
abbrev pub truthy_error : {E : Type 0} → (E → Bool) → Option E → Option E
truthy_error truthy none = none
truthy_error truthy (some err) = if truthy err then some err else none

-- `truthy` is the truth of an error value, `encode` is `encodeError(error)`, which may be nullish,
-- and `true_error` the value `true`.
module _ {P E M : Type 0} (truthy : E → Bool) (encode : E → Option E) (true_error : E) where
  unfoldable pub get_default_error_event : E → Event P E M → Event P E M
  get_default_error_event err event = record {
    event_type =
        if not (includes event.event_type default_error_suffix)
        then event.event_type ++ default_error_suffix
        else event.event_type;
    payload = none;
    error = some (or_else (encode err) true_error);
    metadata = event.metadata;
  }

  -- `{ ...r, error: r.error ?? true }`
  unfoldable pub with_error : Event P E M → Event P E M
  with_error r = record r { error = some (or_else r.error true_error) }

  abbrev pub with_errors : Called P E M → Called P E M
  unfolding with_error
  with_errors (threw err) = threw err
  with_errors (returned out) = returned (record out { events = map with_error out.events })

  unfoldable pub handle_error :
      Option (E → Event P E M → Called P E M) → Event P E M → E → Called P E M
  unfolding get_default_error_event with_errors
  handle_error none event err =
      returned (record { events = get_default_error_event err event ∷ []; failure = none })
  handle_error (some error_fn) event err = with_errors (error_fn err event)

  -- an error thrown by the factory of `defer`, or by the selector of `catchError`
  abbrev pub or_fail : List (Event P E M) → Called P E M → Emitted P E M
  or_fail before (threw err) = record { events = before; failure = some err }
  or_fail before (returned out) = record { events = before ++ out.events; failure = out.failure }

  -- the `catch` clause around `handleError(event)(event.error)`
  unfoldable pub handle_again :
      Option (E → Event P E M → Called P E M) → Event P E M → Called P E M → Emitted P E M
  unfolding handle_error
  handle_again error_fn event (threw err) = or_fail [] (handle_error error_fn event err)
  handle_again error_fn event (returned out) = out

  -- the call with its `catchError`, and the `catch` clause around it
  unfoldable pub catch_error :
      Option (E → Event P E M → Called P E M)
      → Event P E M
      → List (Event P E M)
      → Option E
      → Emitted P E M
  unfolding handle_error
  catch_error error_fn event before none = record { events = before; failure = none }
  catch_error error_fn event before (some err) = or_fail before (handle_error error_fn event err)

  unfoldable pub handle_call :
      Option (E → Event P E M → Called P E M) → Event P E M → Called P E M → Emitted P E M
  unfolding handle_error catch_error
  handle_call error_fn event (threw err) = or_fail [] (handle_error error_fn event err)
  handle_call error_fn event (returned out) = catch_error error_fn event out.events out.failure

  -- the branch on `event.error`
  unfoldable pub act_on :
      (Event P E M → Called P E M)
      → Option (E → Event P E M → Called P E M)
      → Event P E M
      → Option E
      → Emitted P E M
  unfolding handle_again handle_call handle_error
  act_on call_fn error_fn event (some err) =
      handle_again error_fn event (handle_error error_fn event err)
  act_on call_fn error_fn event none = handle_call error_fn event (call_fn event)

  unfoldable pub act_event :
      (Event P E M → Called P E M)
      → Option (E → Event P E M → Called P E M)
      → Event P E M
      → Emitted P E M
  unfolding act_on
  act_event call_fn error_fn event = act_on call_fn error_fn event (truthy_error truthy event.error)

  -- the rest of the source, unless the stream has failed
  abbrev pub emit_then : List (Event P E M) → Option E → Emitted P E M → Emitted P E M
  emit_then before none rest = record { events = before ++ rest.events; failure = rest.failure }
  emit_then before (some err) rest = record { events = before; failure = some err }

  -- `act` on a source: `mergeMap` over synchronous inner streams, ended by the first failure
  unfoldable pub act :
      (Event P E M → Called P E M)
      → Option (E → Event P E M → Called P E M)
      → List (Event P E M)
      → Emitted P E M
  unfolding act_event
  act call_fn error_fn [] = record { events = []; failure = none }
  act call_fn error_fn (event ∷ source) =
      let out = act_event call_fn error_fn event in
      emit_then out.events out.failure (act call_fn error_fn source)
