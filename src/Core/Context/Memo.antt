-- ===== src/Core/Context/Memo.antt =====
-- A dependency of packages/core/src/context/context.ts is evaluated once, when its value is neither
-- nullish nor has a field `eval`.
use marble_js.Base.{
  ℕ, zero, suc, ◌≡◌, refl, ◌∙◌, Option, none, some, Text, Dict, lookup, insert, lookup-insert,
  ==_refl,
}
use marble_js.Core.Context.{
  Kind, ordinary, nullish, with_eval, found_value, Dependency, resolved, eager, lazy, Context, root,
  derived, entries, with_entries, chain, evaluate, memoize, found_entry, context_lookup, Looked,
}

module _ {V : Type 0} (kind : V → Kind V) where
  -- the lookup of a token whose entry is resolved
  resolved-lookup :
      (n : ℕ) (t : Text) (v : V) (c : Context V)
      → kind v ≡ ordinary
      → lookup t (entries c) ≡ some (resolved v)
      → context_lookup kind (suc n) t c ≡ some (some v, c)
  unfolding context_lookup found_entry found_value
  resolved-lookup n t v c is h = rw h (rw is refl)

  entries-memoized :
      (t : Text) (v : V) (c : Context V)
      → lookup t (entries (with_entries (insert t (resolved v) (entries c)) c)) ≡ some (resolved v)
  entries-memoized t v (root d) = lookup-insert t t (resolved v) d ∙ rw (==_refl t) refl
  entries-memoized t v (derived d p) = lookup-insert t t (resolved v) d ∙ rw (==_refl t) refl

  -- what the lookup that gave a value gives in the context after it
  abbrev IsStable : ℕ → Text → Looked V → Type 0
  IsStable n t none = Unit
  IsStable n t (some (none, after)) = Unit
  IsStable n t (some (some v, after)) =
      kind v ≡ ordinary → context_lookup kind n t after ≡ some (some v, after)

  memoize-IsStable :
      (n : ℕ) (t : Text) (o : Option (V × Context V)) → IsStable (suc n) t (chain o (memoize t))
  unfolding memoize
  memoize-IsStable n t none = tt
  memoize-IsStable n t (some (v, c)) = λ is.
      resolved-lookup n t v (with_entries (insert t (resolved v) (entries c)) c) is
        (entries-memoized t v c)

  derived-IsStable :
      (n : ℕ) (t : Text) (d : Dict (Dependency V)) (o : Looked V)
      → lookup t d ≡ none
      → IsStable n t o
      → IsStable (suc n) t (chain o (λ x. some (x.0, derived d x.1)))
  unfolding context_lookup found_entry
  derived-IsStable n t d none absent h = tt
  derived-IsStable n t d (some (none, after)) absent h = tt
  derived-IsStable n t d (some (some v, after)) absent h = λ is. rw absent (rw (h is) refl)

  found_value-IsStable :
      (n : ℕ) (t : Text) (k : Kind V) (v : V) (c : Context V)
      → lookup t (entries c) ≡ some (resolved v)
      → IsStable (suc n) t (found_value kind (context_lookup kind n) t k v c)
  unfolding found_value
  found_value-IsStable n t ordinary v c e = λ is. resolved-lookup n t v c is e
  found_value-IsStable n t nullish v c e = tt
  found_value-IsStable n t (with_eval is_eager r) v c e =
      memoize-IsStable n t (evaluate (context_lookup kind n) r c)

  found_entry-IsStable :
      (n : ℕ) (t : Text) (o : Option (Dependency V)) (c : Context V)
      → lookup t (entries c) ≡ o
      → ((p : Context V) → IsStable n t (context_lookup kind n t p))
      → IsStable (suc n) t (found_entry kind (context_lookup kind n) t o c)
  unfolding found_entry
  found_entry-IsStable n t (some (resolved v)) c e h = found_value-IsStable n t (kind v) v c e
  found_entry-IsStable n t (some (eager r)) c e h =
      memoize-IsStable n t (evaluate (context_lookup kind n) r c)
  found_entry-IsStable n t (some (lazy r)) c e h =
      memoize-IsStable n t (evaluate (context_lookup kind n) r c)
  found_entry-IsStable n t none (root d) e h = tt
  found_entry-IsStable n t none (derived d p) e h =
      derived-IsStable n t d (context_lookup kind n t p) e (h p)

  context_lookup-IsStable :
      (n : ℕ) (t : Text) (c : Context V) → IsStable n t (context_lookup kind n t c)
  unfolding context_lookup
  context_lookup-IsStable zero t c = tt
  context_lookup-IsStable (suc n) t c =
      found_entry-IsStable n t (lookup t (entries c)) c refl (context_lookup-IsStable n t)

  -- Once a lookup has given a value that is neither `undefined` nor `null` and has no field `eval`,
  -- the same lookup in the context after it gives the same value again and leaves that context as it
  -- is, whatever the other values are.
  pub context_lookup-memoized :
      (n : ℕ) (t : Text) (v : V) (c after : Context V)
      → kind v ≡ ordinary
      → context_lookup kind n t c ≡ some (some v, after)
      → context_lookup kind n t after ≡ some (some v, after)
  context_lookup-memoized n t v c after is h =
      let stable = context_lookup-IsStable n t c in (rw h at stable) is
