-- ===== src/Http/Pipeline/Answers.antt =====
-- How many answers a request gets from a route of packages/http/src/router.
use marble_js.Base.{
  ◌≡◌, ◌+◌, ℕ, refl, ◌∙◌, ◌⊎◌, inl, inr, none, some, List, [], ◌∷◌, length, All, append-nil,
}
use marble_js.Http.Pipeline.{
  Ran, Flow, no_flow, then_flow, decorate_effect, flow_all, decorate_middleware, run_route,
}

-- One emission, or a failure.
abbrev pub IsSingle : {A X : Type 0} → Ran A X → Type 0
IsSingle {A} {X} ran =
    ((a : A) × (ran ≡ record { emits = a ∷ []; failure = none }))
    ⊎ ((x : X) × (ran ≡ record { emits = []; failure = some x }))

abbrev pub answers : {Q R X : Type 0} → Flow Q R X → ℕ
answers flow = length flow.outputs + length flow.errors

module _ {Q R X : Type 0} where
  -- two empty lists after the outputs and the errors of a flow
  answers-append-nil :
      (flow : Flow Q R X) → answers (then_flow (then_flow flow no_flow) no_flow) ≡ answers flow
  answers-append-nil flow =
      let outputs = append-nil flow.outputs in
      let errors = append-nil flow.errors in rw (outputs, outputs, errors, errors) refl

  -- A request gets exactly one answer from its route, a response or an error, when each middleware
  -- of it passes on one request or fails, and the effect gives one response or fails.
  pub run_route-answers :
      (middlewares : List (Q → Ran Q X)) (effect : Q → Ran R X)
      → All (λ middleware. (request : Q) → IsSingle (middleware request)) middlewares
      → ((request : Q) → IsSingle (effect request))
      → (request : Q) → answers (run_route middlewares effect request) ≡ 1
  unfolding run_route decorate_effect decorate_middleware flow_all
  run_route-answers [] effect h single request = elim (single request) [
    | inl (r, e) ↦ rw e refl
    | inr (x, e) ↦ rw e refl
  ]
  run_route-answers (middleware ∷ middlewares) effect h single request = elim (h.0 request) [
    | inl (r, e) ↦ rw e (
        answers-append-nil (run_route middlewares effect r)
        ∙ run_route-answers middlewares effect h.1 single r)
    | inr (x, e) ↦ rw e refl
  ]
