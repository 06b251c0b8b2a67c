-- ===== src/Core/Events/Acts.antt =====
-- `act` of packages/core/src/operators/act/act.operator.ts keeps a stream alive, and `matchEvent`
-- of packages/core/src/operators/matchEvent selects by type.
use marble_js.Base.{
  ◌≡◌, refl, ◌∙◌, sym, ap, Option, none, some, Bool, true, false, ◌||◌, List, [], ◌∷◌, ◌++◌, map,
  Text, ◌==◌, includes, starts_with, any, keep, is_some, All, append_assoc, Bool-cases, inl, inr,
  arith,
}
use marble_js.Core.Events.{
  Event, MatchingEvent, event_codec, event_text, event_like, matches, match_event, Called, threw,
  returned, default_error_suffix, get_default_error_event, with_error, with_errors, handle_error,
  handle_again, handle_call, act_event, act, catch_error, act_on, truthy_error,
}

-- the type that a matching event stands for
abbrev pub type_of : MatchingEvent → Text
type_of (event_codec t) = t
type_of (event_text t) = t
type_of (event_like t) = t

module _ {P E M : Type 0} where
  any-matches :
      (e : Event P E M) (ms : List MatchingEvent)
      → any (matches e) ms ≡ any (λ t. t == e.event_type) (map type_of ms)
  unfolding matches
  any-matches e [] = refl
  any-matches e (event_codec t ∷ ms) = rw (any-matches e ms) refl
  any-matches e (event_text t ∷ ms) = rw (any-matches e ms) refl
  any-matches e (event_like t ∷ ms) = rw (any-matches e ms) refl

  -- `matchEvent` keeps, in order, the events whose type is one of the types that it is given, in
  -- whichever of the three forms.
  match_event-keep :
      (ms : List MatchingEvent) (source : List (Event P E M))
      → match_event ms source ≡ keep (λ e. any (λ t. t == e.event_type) (map type_of ms)) source
  unfolding match_event
  match_event-keep ms [] = refl
  match_event-keep ms (e ∷ source) = elim (Bool-cases (any (matches e) ms)) [
    | inl kept ↦
        rw kept (rw (sym (any-matches e ms) ∙ kept) (ap (λ s. e ∷ s) (match_event-keep ms source)))
    | inr dropped ↦ rw dropped (rw (sym (any-matches e ms) ∙ dropped) (match_event-keep ms source))
  ]

or_true : (b : Bool) → (b || true) ≡ true
or_true true = refl
or_true false = refl

starts_with-append : (s t : Text) → starts_with (s ++ t) s ≡ true
unfolding starts_with
starts_with-append [] [] = refl
starts_with-append [] (c ∷ t) = refl
starts_with-append (c ∷ s) t = ground (arith, starts_with-append s t)

starts_with_refl : (t : Text) → starts_with t t ≡ true
unfolding starts_with
starts_with_refl [] = refl
starts_with_refl (c ∷ t) = ground (arith, starts_with_refl t)

includes-append : (s t : Text) → includes (s ++ t) t ≡ true
unfolding includes
includes-append [] [] = starts_with_refl []
includes-append [] (c ∷ t) = rw (starts_with_refl (c ∷ t)) refl
includes-append (c ∷ s) t = rw (includes-append s t) (or_true (starts_with (c ∷ (s ++ t)) t))

module _ {P E M : Type 0} (truthy : E → Bool) (encode : E → Option E) (true_error : E) where
  -- An error event that is not handled either keeps its type: the suffix is never added twice.
  get_default_error_event_idempotent :
      (event : Event P E M) (err next : E)
      → (get_default_error_event truthy encode true_error next
          (get_default_error_event truthy encode true_error err event)).event_type
        ≡ (get_default_error_event truthy encode true_error err event).event_type
  unfolding get_default_error_event
  get_default_error_event_idempotent event err next =
      elim (Bool-cases (includes event.event_type default_error_suffix)) [
        | inl suffixed ↦ rw suffixed (rw suffixed refl)
        | inr fresh ↦ rw fresh (rw (includes-append event.event_type default_error_suffix) refl)
      ]

  abbrev pub HasError : Event P E M → Type 0
  HasError e = is_some e.error ≡ true

  map-with_error :
      (es : List (Event P E M)) → All HasError (map (with_error truthy encode true_error) es)
  unfolding with_error
  map-with_error [] = tt
  map-with_error (e ∷ es) = (refl, map-with_error es)

  -- All that a call returns carries an error.
  abbrev pub EmitsErrors : Called P E M → Type 0
  EmitsErrors (threw err) = Unit
  EmitsErrors (returned out) = All HasError out.events

  with_errors-EmitsErrors :
      (c : Called P E M) → EmitsErrors (with_errors truthy encode true_error c)
  unfolding with_errors
  with_errors-EmitsErrors (threw err) = tt
  with_errors-EmitsErrors (returned out) = map-with_error out.events

  -- Every event that stands for a failure carries an error, whether the default handler made it or
  -- a handler that left the error out.
  handle_error-EmitsErrors :
      (error_fn : Option (E → Event P E M → Called P E M)) (event : Event P E M) (err : E)
      → EmitsErrors (handle_error truthy encode true_error error_fn event err)
  unfolding handle_error get_default_error_event
  handle_error-EmitsErrors none event err = (refl, tt)
  handle_error-EmitsErrors (some error_fn) event err = with_errors-EmitsErrors (error_fn err event)

  -- An error handler that itself neither throws nor ends in an error.
  abbrev pub Survives : Option (E → Event P E M → Called P E M) → Type 0
  Survives error_fn =
      (event : Event P E M) (err : E)
      → (events : List (Event P E M)) × (handle_error truthy encode true_error error_fn event err
          ≡ returned (record { events = events; failure = none }))

  -- Without an error handler, the default one is in charge.
  pub none-Survives : Survives none
  unfolding handle_error
  none-Survives event err = (get_default_error_event truthy encode true_error err event ∷ [], refl)

  module _ (call_fn : Event P E M → Called P E M)
      (error_fn : Option (E → Event P E M → Called P E M)) (survives : Survives error_fn) where
    catch_error-failure :
        (event : Event P E M) (before : List (Event P E M)) (o : Option E)
        → (catch_error truthy encode true_error error_fn event before o).failure ≡ none
    unfolding catch_error
    catch_error-failure event before none = refl
    catch_error-failure event before (some err) = rw (survives event err).1 refl

    handle_call-failure :
        (event : Event P E M) (c : Called P E M)
        → (handle_call truthy encode true_error error_fn event c).failure ≡ none
    unfolding handle_call
    handle_call-failure event (threw err) = rw (survives event err).1 refl
    handle_call-failure event (returned out) = catch_error-failure event out.events out.failure

    act_on-failure :
        (event : Event P E M) (o : Option E)
        → (act_on truthy encode true_error call_fn error_fn event o).failure ≡ none
    unfolding act_on handle_again
    act_on-failure event none = handle_call-failure event (call_fn event)
    act_on-failure event (some err) = rw (survives event err).1 refl

    act_event-failure :
        (event : Event P E M)
        → (act_event truthy encode true_error call_fn error_fn event).failure ≡ none
    unfolding act_event
    act_event-failure event = act_on-failure event (truthy_error truthy event.error)

    -- Whatever the calls throw, and whatever errors their streams end in, the stream of `act` does
    -- not end in an error when the error handler survives.
    pub act-failure :
        (source : List (Event P E M))
        → (act truthy encode true_error call_fn error_fn source).failure ≡ none
    unfolding act
    act-failure [] = refl
    act-failure (event ∷ source) = rw (act_event-failure event) (act-failure source)

    -- When the error handler survives, what `act` emits for some events followed by others is what
    -- it emits for the first, failed ones included, followed by what it emits for the others.
    act-append :
        (xs ys : List (Event P E M))
        → (act truthy encode true_error call_fn error_fn (xs ++ ys)).events
          ≡ (act truthy encode true_error call_fn error_fn xs).events
            ++ (act truthy encode true_error call_fn error_fn ys).events
    unfolding act
    act-append [] ys = refl
    act-append (x ∷ xs) ys = rw (act_event-failure x) (
        rw (act-append xs ys) (
          sym (
            append_assoc (act_event truthy encode true_error call_fn error_fn x).events
              (act truthy encode true_error call_fn error_fn xs).events
              (act truthy encode true_error call_fn error_fn ys).events)))
