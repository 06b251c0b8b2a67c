-- ===== src/Core/Context.antt =====
-- packages/core/src/context/context.ts: the context of dependencies, its readers and their
-- memoisation. A token is its `_id`. A reader is what it asks of the context, and what it then gives;
-- of a value the model has whether it is nullish or has a field `eval`, and promises are read as what
-- they resolve to. The entry of `DerivedContextToken` is the parent of a derived context.
mod Resolution
mod Construct
mod Memo
mod Tests
use marble_js.Base.{
  ℕ, zero, suc, Option, none, some, Bool, true, false, List, [], ◌∷◌, map, Text, Dict, lookup,
  insert, erase,
}

-- `createReader`: the handler asks for tokens, and gives a value
pub data Reader (V : Type 0) : Type 0 where
  give : V → Reader V
  ask : Text → (Option V → Reader V) → Reader V

-- What the code reads of a value: nothing, or its field `eval` as a reader and whether its tag is that
-- of an eager one; of `undefined` and `null` it throws.
pub data Kind (V : Type 0) : Type 0 where
  ordinary nullish : Kind V
  with_eval : Bool → Reader V → Kind V

-- an entry of the map: a resolved value, or a reader with its tag
pub data Dependency (V : Type 0) : Type 0 where
  resolved : V → Dependency V
  eager : Reader V → Dependency V
  lazy : Reader V → Dependency V

pub data Context (V : Type 0) : Type 0 where
  root : Dict (Dependency V) → Context V
  derived : Dict (Dependency V) → Context V → Context V

pub record BoundDependency (V : Type 0) : Type 0 where
  pub token : Text
  pub dependency : Dependency V

-- `O.chain`
abbrev pub chain {ℓ κ} : {A : Type ℓ} {B : Type κ} → Option A → (A → Option B) → Option B
chain none f = none
chain (some a) f = f a

-- What `lookup` gives, and the context after it; `none` is a lookup that throws or does not return.
abbrev pub Looked : Type 0 → Type 0
Looked V = Option (Option V × Context V)

module _ {V : Type 0} where
  unfoldable pub bind_lazily_to : Text → Reader V → BoundDependency V
  bind_lazily_to t r = record { token = t; dependency = lazy r }

  unfoldable pub bind_eagerly_to : Text → Reader V → BoundDependency V
  bind_eagerly_to t r = record { token = t; dependency = eager r }

  abbrev pub entries : Context V → Dict (Dependency V)
  entries (root d) = d
  entries (derived d p) = d

  abbrev pub with_entries : Dict (Dependency V) → Context V → Context V
  with_entries e (root d) = root e
  with_entries e (derived d p) = derived e p

  unfoldable pub register : BoundDependency V → Context V → Context V
  register b c = with_entries (insert b.token b.dependency (entries c)) c

  unfoldable pub register_all : List (BoundDependency V) → Context V → Context V
  unfolding register
  register_all [] c = c
  register_all (b ∷ bs) c = register_all bs (register b c)

  unfoldable pub unregister : Text → Context V → Context V
  unregister t c = with_entries (erase t (entries c)) c

  -- `dependency.eval(context)`, with the lookups that the reader asks for
  unfoldable pub evaluate :
      (Text → Context V → Looked V) → Reader V → Context V → Option (V × Context V)
  evaluate look (give v) c = some (v, c)
  evaluate look (ask t k) c = chain (look t c) (λ x. evaluate look (k x.0) x.1)

  -- `context.set(token, boostrapedDependency)`
  unfoldable pub memoize : Text → V × Context V → Looked V
  memoize t x = some (some x.0, with_entries (insert t (resolved x.0) (entries x.1)) x.1)

module _ {V : Type 0} (kind : V → Kind V) where
  -- an entry that was resolved: `dependency.eval` is read from it, too
  unfoldable pub found_value :
      (Text → Context V → Looked V) → Text → Kind V → V → Context V → Looked V
  unfolding evaluate memoize
  found_value look t ordinary v c = some (some v, c)
  found_value look t nullish v c = none
  found_value look t (with_eval is_eager r) v c = chain (evaluate look r c) (memoize t)

  -- the fold of `lookup` on the entry of the token
  unfoldable pub found_entry :
      (Text → Context V → Looked V) → Text → Option (Dependency V) → Context V → Looked V
  unfolding evaluate memoize found_value
  found_entry look t (some (resolved v)) c = found_value look t (kind v) v c
  found_entry look t (some (eager r)) c = chain (evaluate look r c) (memoize t)
  found_entry look t (some (lazy r)) c = chain (evaluate look r c) (memoize t)
  found_entry look t none (root d) = some (none, root d)
  found_entry look t none (derived d p) = chain (look t p) (λ x. some (x.0, derived d x.1))

  -- `lookup`, on a bound of the depth of its own calls
  unfoldable pub context_lookup : ℕ → Text → Context V → Looked V
  unfolding found_entry
  context_lookup zero t c = none
  context_lookup (suc n) t c = found_entry (context_lookup n) t (lookup t (entries c)) c

  unfoldable pub resolve_reader : ℕ → Text → Reader V → Context V → Option (Context V)
  unfolding evaluate context_lookup memoize
  resolve_reader n t r c =
      chain (evaluate (context_lookup n) r c) (λ x. chain (memoize t x) (λ y. some y.1))

  -- `isEagerDependency` on an entry that was resolved
  unfoldable pub resolve_value : ℕ → Text → Kind V → Context V → Option (Context V)
  unfolding resolve_reader
  resolve_value n t ordinary c = some c
  resolve_value n t nullish c = none
  resolve_value n t (with_eval true r) c = resolve_reader n t r c
  resolve_value n t (with_eval false r) c = some c

  -- one round of the loop of `resolve`, for a key of the map
  unfoldable pub resolve_entry : ℕ → Text → Option (Dependency V) → Context V → Option (Context V)
  unfolding resolve_reader resolve_value
  resolve_entry n t (some (eager r)) c = resolve_reader n t r c
  resolve_entry n t (some (resolved v)) c = resolve_value n t (kind v) c
  resolve_entry n t (some (lazy r)) c = some c
  resolve_entry n t none c = some c

  unfoldable pub resolve_tokens : ℕ → List Text → Context V → Option (Context V)
  unfolding resolve_entry
  resolve_tokens n [] c = some c
  resolve_tokens n (t ∷ ts) c =
      chain (resolve_entry n t (lookup t (entries c)) c) (resolve_tokens n ts)

  -- `resolve`: the loop over the map reads each entry when it comes to it
  unfoldable pub resolve : ℕ → Context V → Option (Context V)
  unfolding resolve_tokens
  resolve n c = resolve_tokens n (map (λ e. e.0) (entries c)) c
