-- ===== src/Core/Env.antt =====
-- packages/core/src/+internal/utils/env.util.ts: a variable of the environment that is read once.
-- The environment is an argument of each read, since it may change between two.
use marble_js.Base.{
  ◌≡◌, refl, ap, Option, none, some, Bool, List, [], ◌∷◌, map, Text, codes, ◌==◌, Dict, lookup,
  or_else, to_lower_case,
}

module _ {A : Type 0} where
  -- `memoize`: the value and the cache after one call; the cache is `none` until `isMemoized`
  unfoldable pub memoize_read : A → Option A → A × Option A
  memoize_read value none = (value, some value)
  memoize_read value (some cache) = (cache, some cache)

module _ (key : Text) where
  unfoldable pub get_env_config :
      Dict Text → Option (Option Text) → Option Text × Option (Option Text)
  unfolding memoize_read
  get_env_config env cache = memoize_read (lookup key env) cache

  unfoldable pub get_env_config_or_else :
      Text → Dict Text → Option (Option Text) → Text × Option (Option Text)
  unfolding get_env_config
  get_env_config_or_else on_none env cache =
      let read = get_env_config env cache in (or_else read.0 on_none, read.1)

  unfoldable pub get_env_config_or_else_as_boolean :
      Text → Dict Text → Option (Option Text) → Bool × Option (Option Text)
  unfolding get_env_config_or_else
  get_env_config_or_else_as_boolean on_none env cache =
      let read = get_env_config_or_else on_none env cache in
      (to_lower_case read.0 == codes "true", read.1)

  -- the results of one reader, called in one environment after the other
  abbrev read_all : Text → List (Dict Text) → Option (Option Text) → List Bool
  read_all on_none [] cache = []
  read_all on_none (env ∷ envs) cache =
      let read = get_env_config_or_else_as_boolean on_none env cache in
      read.0 ∷ read_all on_none envs read.1

  read_all-cached :
      (on_none : Text) (envs : List (Dict Text)) (value : Option Text)
      → read_all on_none envs (some value)
        ≡ map (λ env. to_lower_case (or_else value on_none) == codes "true") envs
  unfolding get_env_config_or_else_as_boolean
  read_all-cached on_none [] value = refl
  read_all-cached on_none (env ∷ envs) value =
      ap (λ r. (to_lower_case (or_else value on_none) == codes "true") ∷ r)
        (read_all-cached on_none envs value)

  -- Every call of a reader gives what the first one read, whatever the environment has since.
  read_all-first :
      (on_none : Text) (env : Dict Text) (envs : List (Dict Text))
      → read_all on_none (env ∷ envs) none
        ≡ map (λ e. to_lower_case (or_else (lookup key env) on_none) == codes "true") (env ∷ envs)
  unfolding get_env_config_or_else_as_boolean
  read_all-first on_none env envs =
      ap (λ r. (to_lower_case (or_else (lookup key env) on_none) == codes "true") ∷ r)
        (read_all-cached on_none envs (lookup key env))
