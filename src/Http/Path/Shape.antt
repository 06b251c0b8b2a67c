-- ===== src/Http/Path/Shape.antt =====
-- The shape of a prepared path (http.router.params.factory.ts).
use marble_js.Base.{ℕ, ◌≡◌, refl, ◌≢◌, ◌⊎◌, [], ◌∷◌, Option, none, some, Text, codes, arith}
use marble_js.Http.Path.{expand_wildcards, collapse_slashes, strip_trailing_slash, prepare_path}

abbrev pub head? : Text → Option ℕ
head? [] = none
head? (c ∷ s) = some c

abbrev pub last? : Text → Option ℕ
last? [] = none
last? (c ∷ []) = some c
last? (c ∷ d ∷ s) = last? (d ∷ s)

-- No `a` is directly followed by `b`.
abbrev pub NoPair : ℕ → ℕ → Text → Type 0
NoPair a b [] = Unit
NoPair a b (c ∷ s) = ((c ≢ a) ⊎ (head? s ≢ some b)) × NoPair a b s

-- The first two replacements keep the first code unit of a text.
pub head?-expand_wildcards : (c : ℕ) (s : Text) → head? (expand_wildcards (c ∷ s)) ≡ some c
unfolding expand_wildcards
head?-expand_wildcards c [] = refl
head?-expand_wildcards c (d ∷ s) = ground arith

head?-collapse_slashes : (c : ℕ) (s : Text) → head? (collapse_slashes (c ∷ s)) ≡ some c
unfolding collapse_slashes
head?-collapse_slashes c [] = refl
head?-collapse_slashes c (d ∷ s) = ground (arith, head?-collapse_slashes d s)

-- After the first replacement no slash is followed by a star.
expand_wildcards-NoPair : (s : Text) → NoPair b'/' b'*' (expand_wildcards s)
unfolding expand_wildcards
expand_wildcards-NoPair [] = tt
expand_wildcards-NoPair (c ∷ []) = ground arith
expand_wildcards-NoPair (c ∷ d ∷ s) =
    ground (
      arith,
      expand_wildcards-NoPair s,
      expand_wildcards-NoPair (d ∷ s),
      head?-expand_wildcards d s,
    )

collapse_slashes-NoPair : (s : Text) → NoPair b'/' b'/' (collapse_slashes s)
unfolding collapse_slashes
collapse_slashes-NoPair [] = tt
collapse_slashes-NoPair (c ∷ []) = ground arith
collapse_slashes-NoPair (c ∷ d ∷ s) =
    ground (arith, collapse_slashes-NoPair (d ∷ s), head?-collapse_slashes d s)

-- The later replacements bring no pair about that the text did not have.
collapse_slashes-NoPair_keep : (a b : ℕ) (s : Text) → NoPair a b s → NoPair a b (collapse_slashes s)
unfolding collapse_slashes
collapse_slashes-NoPair_keep a b [] h = tt
collapse_slashes-NoPair_keep a b (c ∷ []) h = h
collapse_slashes-NoPair_keep a b (c ∷ d ∷ s) h =
    ground (arith, collapse_slashes-NoPair_keep a b (d ∷ s) h.1, head?-collapse_slashes d s)

strip_trailing_slash-NoPair :
    (a b : ℕ) (s : Text) → NoPair a b s → NoPair a b (strip_trailing_slash s)
unfolding strip_trailing_slash
strip_trailing_slash-NoPair a b [] h = tt
strip_trailing_slash-NoPair a b (c ∷ []) h = ground arith
strip_trailing_slash-NoPair a b (c ∷ d ∷ []) h = ground arith
strip_trailing_slash-NoPair a b (c ∷ d ∷ e ∷ s) h =
    (h.0, strip_trailing_slash-NoPair a b (d ∷ e ∷ s) h.1)

-- Without double slashes one replacement at the end is enough.
strip_trailing_slash-last? :
    (s : Text) → NoPair b'/' b'/' s → last? (strip_trailing_slash s) ≢ some b'/'
unfolding strip_trailing_slash
strip_trailing_slash-last? [] h = λ e. cc
strip_trailing_slash-last? (c ∷ []) h = ground arith
strip_trailing_slash-last? (c ∷ d ∷ []) h = ground arith
strip_trailing_slash-last? (c ∷ d ∷ e ∷ s) h = strip_trailing_slash-last? (d ∷ e ∷ s) h.1

-- Each replacement leaves a text alone that has nothing to replace.
expand_wildcards-fixed : (s : Text) → NoPair b'/' b'*' s → expand_wildcards s ≡ s
unfolding expand_wildcards
expand_wildcards-fixed [] h = refl
expand_wildcards-fixed (c ∷ []) h = refl
expand_wildcards-fixed (c ∷ d ∷ s) h = ground (arith, expand_wildcards-fixed (d ∷ s) h.1)

collapse_slashes-fixed : (s : Text) → NoPair b'/' b'/' s → collapse_slashes s ≡ s
unfolding collapse_slashes
collapse_slashes-fixed [] h = refl
collapse_slashes-fixed (c ∷ []) h = refl
collapse_slashes-fixed (c ∷ d ∷ s) h = ground (arith, collapse_slashes-fixed (d ∷ s) h.1)

strip_trailing_slash-fixed : (s : Text) → last? s ≢ some b'/' → strip_trailing_slash s ≡ s
unfolding strip_trailing_slash
strip_trailing_slash-fixed [] h = refl
strip_trailing_slash-fixed (c ∷ []) h = ground arith
strip_trailing_slash-fixed (c ∷ d ∷ s) h = ground (arith, strip_trailing_slash-fixed (d ∷ s) h)

abbrev pub IsPrepared : Text → Type 0
IsPrepared s = NoPair b'/' b'*' s × NoPair b'/' b'/' s × (last? s ≢ some b'/')

-- A prepared path has no slash before a star, no double slash, and no slash at its end.
prepare_path-IsPrepared : (s : Text) → IsPrepared (prepare_path s)
unfolding prepare_path
prepare_path-IsPrepared s =
    let wild = expand_wildcards s in
    let single = collapse_slashes-NoPair wild in
    (
      strip_trailing_slash-NoPair _ _ _
          (collapse_slashes-NoPair_keep b'/' b'*' wild (expand_wildcards-NoPair s)),
      strip_trailing_slash-NoPair _ _ _ single,
      strip_trailing_slash-last? _ single,
    )

prepare_path-fixed : (s : Text) → IsPrepared s → prepare_path s ≡ s
unfolding prepare_path
prepare_path-fixed s (wild, single, last) =
    rw (expand_wildcards-fixed s wild)
      (rw (collapse_slashes-fixed s single) (strip_trailing_slash-fixed s last))

-- Preparing a path a second time changes nothing: the `path` of a routing item names the same
-- routing item again.
prepare_path_idempotent : (s : Text) → prepare_path (prepare_path s) ≡ prepare_path s
prepare_path_idempotent s = prepare_path-fixed (prepare_path s) (prepare_path-IsPrepared s)

prepare_path_tests :
    (prepare_path (codes "/") ≡ [])
    × (prepare_path (codes "//api//:id/") ≡ codes "/api/:id")
    × (prepare_path (codes "/static/*") ≡ codes "/static/(.*)")
unfolding prepare_path
prepare_path_tests = (refl, refl, refl)
