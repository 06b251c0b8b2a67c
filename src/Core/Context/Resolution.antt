-- ===== src/Core/Context/Resolution.antt =====
-- Lookups in a context of packages/core/src/context/context.ts return when its readers do not ask in
-- a circle.
use marble_js.Base.{
  ℕ, zero, suc, ◌+◌, ◌<◌, ◌≡◌, refl, ap, Option, none, some, Text, Dict, lookup, AllIn,
  AllIn-insert, AllIn-lookup, arith,
}
use marble_js.Core.Context.{
  Kind, ordinary, found_value, Reader, give, ask, Dependency, resolved, eager, lazy, Context, root,
  derived, entries, chain, evaluate, memoize, found_entry, context_lookup, Looked,
}

-- No value is nullish or has a field `eval`.
abbrev pub AllOrdinary : {V : Type 0} → (V → Kind V) → Type 0
AllOrdinary {V = V} kind = (v : V) → kind v ≡ ordinary

module _ {V : Type 0} (rank : Text → ℕ) where
  -- A reader that asks only for tokens of a rank below the bound, whatever the answers.
  abbrev pub AsksBelow : ℕ → Reader V → Type 0
  AsksBelow n (give v) = Unit
  AsksBelow n (ask t k) = (rank t < n) × ((o : Option V) → AsksBelow n (k o))

  abbrev pub IsRanked : Text → Dependency V → Type 0
  IsRanked t (resolved v) = Unit
  IsRanked t (eager r) = AsksBelow (rank t) r
  IsRanked t (lazy r) = AsksBelow (rank t) r

  -- Every reader of the context and of its parents asks for tokens of a lower rank than its own.
  abbrev pub IsAcyclic : Context V → Type 0
  IsAcyclic (root d) = AllIn IsRanked d
  IsAcyclic (derived d p) = AllIn IsRanked d × IsAcyclic p

  -- the number of parents
  abbrev pub depth : Context V → ℕ
  depth (root d) = 0
  depth (derived d p) = suc (depth p)

  -- What a computation returns: a context that is acyclic and has the same number of parents.
  abbrev pub Returns : {A : Type 0} → ℕ → Option (A × Context V) → Type 0
  Returns n none = ⊥
  Returns n (some (a, c)) = IsAcyclic c × (depth c ≡ n)

  abbrev Look : ℕ → ℕ → (Text → Context V → Looked V) → Type 0
  Look m n look =
      (t : Text) (c : Context V) → rank t < m → IsAcyclic c → depth c ≡ n → Returns n (look t c)

  chain-Returns :
      {A B : Type 0} (n : ℕ) (o : Option (A × Context V))
      (f : A × Context V → Option (B × Context V))
      → Returns n o
      → ((a : A) (c : Context V) → IsAcyclic c → depth c ≡ n → Returns n (f (a, c)))
      → Returns n (chain o f)
  chain-Returns n none f g h = g
  chain-Returns n (some (a, c)) f g h = h a c g.0 g.1

  evaluate-Returns :
      (m n : ℕ) (look : Text → Context V → Looked V)
      → Look m n look
      → (r : Reader V) (c : Context V) → AsksBelow m r
      → IsAcyclic c
      → depth c ≡ n
      → Returns n (evaluate look r c)
  unfolding evaluate
  evaluate-Returns m n look h (give v) c below acyclic e = (acyclic, e)
  evaluate-Returns m n look h (ask t k) c below acyclic e =
      chain-Returns n (look t c) (λ x. evaluate look (k x.0) x.1) (h t c below.0 acyclic e)
        (λ o after ok same. evaluate-Returns m n look h (k o) after (below.1 o) ok same)

  memoize-Returns :
      (n : ℕ) (t : Text) (o : Option (V × Context V))
      → Returns n o
      → Returns n (chain o (memoize t))
  unfolding memoize
  memoize-Returns n t none g = g
  memoize-Returns n t (some (v, root d)) g = (AllIn-insert IsRanked t (resolved v) d tt g.0, g.1)
  memoize-Returns n t (some (v, derived d p)) g =
      ((AllIn-insert IsRanked t (resolved v) d tt g.0.0, g.0.1), g.1)

  derived-Returns :
      (n : ℕ) (d : Dict (Dependency V)) (o : Looked V)
      → AllIn IsRanked d
      → Returns n o
      → Returns (suc n) (chain o (λ x. some (x.0, derived d x.1)))
  derived-Returns n d none ranked g = g
  derived-Returns n d (some (v, p)) ranked g = ((ranked, g.0), ap suc g.1)

  entry-IsRanked :
      (t : Text) (x : Dependency V) (c : Context V)
      → IsAcyclic c
      → lookup t (entries c) ≡ some x
      → IsRanked t x
  entry-IsRanked t x (root d) h e = AllIn-lookup IsRanked t x d h e
  entry-IsRanked t x (derived d p) h e = AllIn-lookup IsRanked t x d h.0 e

  found_entry-Returns :
      (kind : V → Kind V)
      → AllOrdinary kind
      → (fuel : ℕ) (t : Text) (o : Option (Dependency V)) (c : Context V)
      → ((u : Text) (p : Context V)
          → rank u + depth p < fuel
          → IsAcyclic p
          → Returns (depth p) (context_lookup kind fuel u p))
      → rank t + depth c < suc fuel
      → IsAcyclic c
      → lookup t (entries c) ≡ o
      → Returns (depth c) (found_entry kind (context_lookup kind fuel) t o c)
  unfolding found_entry found_value
  found_entry-Returns kind plain fuel t (some (resolved v)) c h below acyclic e =
      rw (plain v) (acyclic, refl)
  found_entry-Returns kind plain fuel t (some (eager r)) c h below acyclic e =
      memoize-Returns (depth c) t (evaluate (context_lookup kind fuel) r c) (
        evaluate-Returns (rank t) (depth c) (context_lookup kind fuel)
          (λ u p lower ok same. rw same at (h u p (ground arith) ok)) r c
          (entry-IsRanked t (eager r) c acyclic e) acyclic refl)
  found_entry-Returns kind plain fuel t (some (lazy r)) c h below acyclic e =
      memoize-Returns (depth c) t (evaluate (context_lookup kind fuel) r c) (
        evaluate-Returns (rank t) (depth c) (context_lookup kind fuel)
          (λ u p lower ok same. rw same at (h u p (ground arith) ok)) r c
          (entry-IsRanked t (lazy r) c acyclic e) acyclic refl)
  found_entry-Returns kind plain fuel t none (root d) h below acyclic e = (acyclic, refl)
  found_entry-Returns kind plain fuel t none (derived d p) h below acyclic e =
      derived-Returns (depth p) d (context_lookup kind fuel t p) acyclic.0
        (h t p (ground arith) acyclic.1)

  -- When the readers of a context and of its parents never ask in a circle, as a rank of the tokens
  -- shows, and no value is nullish or has a field `eval`, every lookup returns, with a depth of
  -- calls above the rank of the token and the number of parents together; and the context after it
  -- is still one whose readers do not ask in a circle.
  pub context_lookup-Returns :
      (kind : V → Kind V)
      → AllOrdinary kind
      → (fuel : ℕ) (t : Text) (c : Context V) → rank t + depth c < fuel
      → IsAcyclic c
      → Returns (depth c) (context_lookup kind fuel t c)
  unfolding context_lookup
  context_lookup-Returns kind plain zero t c below acyclic =
      let absurd : ⊥ = omega arith in elim absurd [ ]
  context_lookup-Returns kind plain (suc fuel) t c below acyclic =
      found_entry-Returns kind plain fuel t (lookup t (entries c)) c
        (context_lookup-Returns kind plain fuel) below acyclic refl
