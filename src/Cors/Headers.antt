-- ===== src/Cors/Headers.antt =====
-- The headers that packages/middleware-cors/src/applyHeaders.ts sets: the last value of each key.
use marble_js.Base.{
  ◌≡◌, refl, sym, Option, none, some, Bool, true, false, List, [], ◌∷◌, ◌++◌, Text, codes, ◌==◌,
  Dict, insert, lookup, lookup-insert, or_option, if◌then◌else◌, arith, eqb, Bool-cases, inl, inr,
  ℕ,
}
use marble_js.Cors.{
  AllowHeaders, header_text, header_list, capitalized_header, credentials_header, allow_header,
  max_age_header, expose_header,
}
use marble_js.Cors.Configured.{
  AccessControlHeader, header_name, ConfiguredHeader, set_headers, headers, credentials, max_age,
  expose_headers,
}

-- the value of the last header with the key
unfoldable pub last_value : AccessControlHeader → List ConfiguredHeader → Option Text
last_value k [] = none
last_value k (h ∷ hs) =
    or_option (last_value k hs) (if header_name h.key == header_name k then some h.value else none)

or_option_assoc : (a b c : Option Text) → or_option a (or_option b c) ≡ or_option (or_option a b) c
or_option_assoc none b c = refl
or_option_assoc (some a) b c = refl

pub last_value-append :
    (k : AccessControlHeader) (hs gs : List ConfiguredHeader)
    → last_value k (hs ++ gs) ≡ or_option (last_value k gs) (last_value k hs)
unfolding last_value
last_value-append k [] gs = ground arith
last_value-append k (h ∷ hs) gs =
    rw (last_value-append k hs gs) (sym (or_option_assoc (last_value k gs) (last_value k hs) _))

or_option-if :
    (a : Option Text) (b : Bool) (v : Text) (o : Option Text)
    → or_option a (if b then some v else o) ≡ or_option (or_option a (if b then some v else none)) o
or_option-if none true v o = refl
or_option-if none false v o = refl
or_option-if (some a) b v o = refl

-- A header is read back with the last value it was given, or with the value it had.
pub lookup-set_headers :
    (k : AccessControlHeader) (hs : List ConfiguredHeader) (d : Dict Text)
    → lookup (header_name k) (set_headers hs d)
      ≡ or_option (last_value k hs) (lookup (header_name k) d)
unfolding set_headers last_value
lookup-set_headers k [] d = refl
lookup-set_headers k (h ∷ hs) d =
    rw (lookup-set_headers k hs (insert (header_name h.key) h.value d)) (
      rw (lookup-insert (header_name h.key) (header_name k) h.value d)
        (or_option-if (last_value k hs) (header_name h.key == header_name k) h.value _))

-- Which keys the parts of an answer set.
last_value-credentials :
    (k : AccessControlHeader) (o : Option Bool)
    → (header_name credentials == header_name k) ≡ false
    → last_value k (credentials_header o) ≡ none
unfolding last_value
last_value-credentials k none h = refl
last_value-credentials k (some true) h = rw h refl
last_value-credentials k (some false) h = refl

pub last_value-allow :
    (k : AccessControlHeader) (o : Option AllowHeaders)
    → (header_name headers == header_name k) ≡ false
    → last_value k (allow_header o) ≡ none
unfolding last_value allow_header capitalized_header
last_value-allow k none h = refl
last_value-allow k (some (header_text s)) h = elim (Bool-cases (s == codes "*")) [
  | inl star ↦ rw star (rw h refl)
  | inr plain ↦ rw plain refl
]
last_value-allow k (some (header_list [])) h = refl
last_value-allow k (some (header_list (x ∷ xs))) h = rw h refl

pub last_value-max_age :
    (k : AccessControlHeader) (o : Option ℕ)
    → (header_name max_age == header_name k) ≡ false
    → last_value k (max_age_header o) ≡ none
unfolding last_value
last_value-max_age k none h = refl
last_value-max_age k (some n) h = elim (Bool-cases (eqb n 0)) [
  | inl nought ↦ rw nought refl
  | inr given ↦ rw given (rw h refl)
]

pub last_value-expose :
    (k : AccessControlHeader) (o : Option (List Text))
    → (header_name expose_headers == header_name k) ≡ false
    → last_value k (expose_header o) ≡ none
unfolding last_value expose_header capitalized_header
last_value-expose k none h = refl
last_value-expose k (some []) h = refl
last_value-expose k (some (x ∷ xs)) h = rw h refl

-- A header with another name keeps its value.
pub lookup-set_headers_other :
    (k : Text) (hs : List ConfiguredHeader) (d : Dict Text)
    → ((a : AccessControlHeader) → (header_name a == k) ≡ false)
    → lookup k (set_headers hs d) ≡ lookup k d
unfolding set_headers
lookup-set_headers_other k [] d h = refl
lookup-set_headers_other k (g ∷ gs) d h =
    rw (lookup-set_headers_other k gs (insert (header_name g.key) g.value d) h)
      (rw (lookup-insert (header_name g.key) k g.value d) (rw (h g.key) refl))
