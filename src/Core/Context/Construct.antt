-- ===== src/Core/Context/Construct.antt =====
-- packages/core/src/context/context.helper.ts: the construction of a context, root or derived.
use marble_js.Base.{
  ℕ, ◌≡◌, refl, ◌∙◌, Option, none, some, false, List, ◌∷◌, Text, ◌==◌, ==_refl, Dict, lookup, erase,
  lookup-erase,
}
use marble_js.Core.Context.{
  Kind, Reader, Dependency, Context, root, derived, BoundDependency, chain, bind_lazily_to, entries,
  register_all, unregister, context_lookup, resolve,
}

module _ {V : Type 0} where
  unfoldable pub delete_if : Option V → Text → Context V → Context V
  unfolding unregister
  delete_if none token c = c
  delete_if (some v) token c = unregister token c

module _ {V : Type 0} (kind : V → Kind V) where
  -- `unregisterRedundantToken`, on the bound of the lookup in the parent
  unfoldable pub unregister_redundant_token : ℕ → Text → Context V → Option (Context V)
  unfolding context_lookup delete_if
  unregister_redundant_token n token (root d) = some (root d)
  unregister_redundant_token n token (derived d p) =
      chain (context_lookup kind n token p) (λ x. some (delete_if x.0 token (derived d x.1)))

  -- `constructContext`, on the context or the empty one, with the token and the reader of the logger
  unfoldable pub construct_context :
      ℕ → Text → Reader V → Context V → List (BoundDependency V) → Option (Context V)
  unfolding register_all bind_lazily_to resolve unregister_redundant_token
  construct_context n logger_token logger context dependencies =
      chain
        (resolve kind n (register_all (bind_lazily_to logger_token logger ∷ dependencies) context))
        (unregister_redundant_token n logger_token)

  -- A derived context that is constructed and resolved while its parent has a logger has none of its
  -- own, also when the dependencies that it was given bind one: every other entry is what it was
  -- resolved to.
  construct_context-derived :
      (n : ℕ) (token : Text) (logger : Reader V) (context : Context V)
      (dependencies : List (BoundDependency V)) (d : Dict (Dependency V)) (parent after : Context V)
      (v : V) (other : Text)
      → resolve kind n (register_all (bind_lazily_to token logger ∷ dependencies) context)
        ≡ some (derived d parent)
      → context_lookup kind n token parent ≡ some (some v, after)
      → (token == other) ≡ false
      → (result : Context V) × (construct_context n token logger context dependencies ≡ some result)
        × (lookup token (entries result) ≡ none)
        × (lookup other (entries result) ≡ lookup other d)
  unfolding construct_context unregister_redundant_token delete_if unregister
  construct_context-derived n token logger context dependencies d parent after v other resolves
        found differs =
      (
        derived (erase token d) after,
        rw resolves (rw found refl),
        lookup-erase token token d ∙ rw (==_refl token) refl,
        lookup-erase token other d ∙ rw differs refl,
      )
