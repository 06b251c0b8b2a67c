-- ===== src/Base/Objects.antt =====
-- A JavaScript object or `Map` with text keys, in insertion order: an assignment to a present key
-- keeps its place, a new key goes to the end.
use mathlib.Core.Path.{◌≡◌, refl}
use mathlib.Core.Option.{Option, none, some}
use mathlib.Core.List.{List, [], ◌∷◌}
use native.Mathlib.Omega.{arith}
use mathlib.Core.Logic.{inl, inr}
use marble_js.Base.Control.{if◌then◌else◌, Bool-cases}
use marble_js.Base.Lists.{All}
use marble_js.Base.Strings.{Text, ◌==◌, ==_iff, ==_sound}

abbrev pub Dict {ℓ} : Type ℓ → Type ℓ
Dict V = List (Text × V)

module _ {ℓ} {V : Type ℓ} where
  -- `d[k]`, `d.get(k)`
  unfoldable pub lookup : Text → Dict V → Option V
  lookup k [] = none
  lookup k ((j, v) ∷ d) = if j == k then some v else lookup k d

  -- `d[k] = v`, `d.set(k, v)`
  unfoldable pub insert : Text → V → Dict V → Dict V
  insert k v [] = (k, v) ∷ []
  insert k v ((j, w) ∷ d) = if j == k then (j, v) ∷ d else (j, w) ∷ insert k v d

  -- `delete d[k]`, `d.delete(k)`
  unfoldable pub erase : Text → Dict V → Dict V
  erase k [] = []
  erase k ((j, w) ∷ d) = if j == k then erase k d else (j, w) ∷ erase k d

  -- `{ ...d, ...e }`
  unfoldable pub assign : Dict V → Dict V → Dict V
  assign d [] = d
  assign d ((k, v) ∷ e) = assign (insert k v d) e

  pub lookup-insert :
      (k j : Text) (v : V) (d : Dict V)
      → lookup j (insert k v d) ≡ (if k == j then some v else lookup j d)
  unfolding lookup insert
  lookup-insert k j v [] = refl
  lookup-insert k j v ((i, w) ∷ d) =
      ground (arith, ==_iff k j, ==_iff i k, ==_iff i j, lookup-insert k j v d)

  pub lookup-erase :
      (k j : Text) (d : Dict V) → lookup j (erase k d) ≡ (if k == j then none else lookup j d)
  unfolding lookup erase
  lookup-erase k j [] = ground arith
  lookup-erase k j ((i, w) ∷ d) =
      ground (arith, ==_iff k j, ==_iff i k, ==_iff i j, lookup-erase k j d)

-- What holds of every entry of an object.
module _ {ℓ κ} {V : Type ℓ} (P : Text → V → Type κ) where
  abbrev pub AllIn : Dict V → Type κ
  AllIn d = All (λ e. P e.0 e.1) d

  pub AllIn-insert : (k : Text) (v : V) (d : Dict V) → P k v → AllIn d → AllIn (insert k v d)
  unfolding insert
  AllIn-insert k v [] p h = (p, tt)
  AllIn-insert k v ((j, w) ∷ d) p h = elim (Bool-cases (j == k)) [
    | inl same ↦ rw same (rw (==_sound j k same) p, h.1)
    | inr other ↦ rw other (h.0, AllIn-insert k v d p h.1)
  ]

  pub AllIn-lookup : (k : Text) (v : V) (d : Dict V) → AllIn d → lookup k d ≡ some v → P k v
  unfolding lookup
  AllIn-lookup k v [] h e = cc
  AllIn-lookup k v ((j, w) ∷ d) h e = elim (Bool-cases (j == k)) [
    | inl same ↦ let found : w ≡ v = ground arith in rw (← ==_sound j k same, ← found) h.0
    | inr other ↦ AllIn-lookup k v d h.1 (ground arith)
  ]
