-- ===== src/Http/Path/Slashes.antt =====
-- Double slashes in a route's path (http.router.params.factory.ts).
use marble_js.Base.{
  ℕ, ◌≡◌, refl, ap, [], ◌∷◌, ◌++◌, some, Text, codes, arith, Bool-cases, eqb, ◌&&◌, inl, inr,
}
use marble_js.Http.Path.{expand_wildcards, collapse_slashes, strip_trailing_slash, prepare_path}
use marble_js.Http.Path.Shape.{head?, head?-expand_wildcards}

-- The two texts begin alike, and differ only in repeated slashes.
abbrev Alike : Text → Text → Type 0
Alike u v = (head? u ≡ head? v) × (collapse_slashes u ≡ collapse_slashes v)

Alike-cons : (c : ℕ) (u v : Text) → Alike u v → Alike (c ∷ u) (c ∷ v)
unfolding collapse_slashes
Alike-cons c [] [] h = (refl, refl)
Alike-cons c [] (e ∷ v) h = absurd (ground arith)
Alike-cons c (d ∷ u) [] h = absurd (ground arith)
Alike-cons c (d ∷ u) (e ∷ v) h = ground arith

Alike-slash : (u : Text) → head? u ≡ some b'/' → Alike (b'/' ∷ u) u
unfolding collapse_slashes
Alike-slash [] h = cc
Alike-slash (d ∷ u) h = ground arith

Alike-append : (t u v : Text) → Alike u v → Alike (t ++ u) (t ++ v)
Alike-append [] u v h = h
Alike-append (c ∷ t) u v h = Alike-cons c (t ++ u) (t ++ v) (Alike-append t u v h)

expand_wildcards-Alike :
    (a s : Text)
    → Alike (expand_wildcards (a ++ b'/' ∷ b'/' ∷ s)) (expand_wildcards (a ++ b'/' ∷ s))
unfolding expand_wildcards
expand_wildcards-Alike [] s = Alike-slash _ (head?-expand_wildcards b'/' s)
expand_wildcards-Alike (c ∷ []) s = ground (arith, Alike-cons c _ _ (expand_wildcards-Alike [] s))
expand_wildcards-Alike (c ∷ d ∷ a) s =
    let u = expand_wildcards (a ++ b'/' ∷ b'/' ∷ s) in
    let v = expand_wildcards (a ++ b'/' ∷ s) in
    elim (Bool-cases (eqb c b'/' && eqb d b'*')) [
      | inl wildcard ↦ rw wildcard (Alike-append (codes "/(.*)") u v (expand_wildcards-Alike a s))
      | inr plain ↦ rw plain (Alike-cons c _ _ (expand_wildcards-Alike (d ∷ a) s))
    ]

-- A second slash anywhere in the path of a route changes nothing.
pub prepare_path-double_slash :
    (a s : Text) → prepare_path (a ++ b'/' ∷ b'/' ∷ s) ≡ prepare_path (a ++ b'/' ∷ s)
unfolding prepare_path
prepare_path-double_slash a s = ap strip_trailing_slash (expand_wildcards-Alike a s).1
