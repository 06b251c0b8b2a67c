-- ===== src/Io/Required.antt =====
-- The required keys of an interface in packages/middleware-io/src/io.json-schema.ts, and the literals
-- that its schemas keep.
use marble_js.Base.{
  ◌≡◌, refl, ◌∙◌, sym, ap, Option, none, some, Bool, true, false, not, ◌&&◌, ◌||◌, List, [], ◌∷◌,
  ◌++◌, Text, ◌==◌, keep, Bool-cases, inl, inr,
}
use marble_js.Io.{
  IoType, IoTypes, IoProps, boolean_type, number_type, string_type, undefined_type, null_type,
  unknown_type, literal_type, union_type, intersection_type, tuple_type, keyof_type, array_type,
  dictionary_type, interface_type, partial_type, exact_type, refinement_type, custom_type, no_types,
  add_type, no_props, add_prop, Supertype, exact_super, refinement_super, JsonSchemas, enum_schema,
  all_of, add_schema, no_schemas, is_undefined_schema, has_undefined, is_reduced, union_schema,
  all_literals, unrequire, convert, convert_types, required_keys, filter_tree,
  io_type_to_json_schema,
}

module _ {L J : Type 0} where
  -- the type of `undefined`, under refinements and exactness
  abbrev pub is_undefined : IoType L J → Bool
  is_undefined undefined_type = true
  is_undefined (exact_type n t) = is_undefined t
  is_undefined (refinement_type n t) = is_undefined t
  is_undefined _ = false

  abbrev pub any_undefined : IoTypes L J → Bool
  any_undefined no_types = false
  any_undefined (add_type t ts) = is_undefined t || any_undefined ts

  -- a union is optional when it has a member of `undefined`; one of literals only has none
  abbrev pub is_optional_union : Option (List L) → IoTypes L J → Bool
  is_optional_union none ts = any_undefined ts
  is_optional_union (some vs) ts = false

  abbrev pub is_optional : IoType L J → Bool
  is_optional (union_type ts) = is_optional_union (all_literals ts) ts
  is_optional (exact_type n t) = is_optional t
  is_optional (refinement_type n t) = is_optional t
  is_optional _ = false

  -- some property with the key is optional
  abbrev pub is_optional_key : IoProps L J → Text → Bool
  is_optional_key no_props k = false
  is_optional_key (add_prop j t ps) k = (is_optional t && k == j) || is_optional_key ps k

  is_undefined_schema-union :
      (o : Option (List L)) (ss : JsonSchemas L J) → is_undefined_schema (union_schema o ss) ≡ false
  is_undefined_schema-union none ss = refl
  is_undefined_schema-union (some vs) ss = refl

  is_undefined_schema-convert :
      (t : IoType L J) (s : List Supertype) → is_undefined_schema (convert t s) ≡ is_undefined t
  unfolding convert
  is_undefined_schema-convert boolean_type s = refl
  is_undefined_schema-convert number_type s = refl
  is_undefined_schema-convert string_type s = refl
  is_undefined_schema-convert undefined_type s = refl
  is_undefined_schema-convert null_type s = refl
  is_undefined_schema-convert unknown_type s = refl
  is_undefined_schema-convert (literal_type v) s = refl
  is_undefined_schema-convert (union_type ts) s =
      is_undefined_schema-union (all_literals ts) (convert_types ts)
  is_undefined_schema-convert (intersection_type ts) s = refl
  is_undefined_schema-convert (tuple_type ts) s = refl
  is_undefined_schema-convert (keyof_type ks) s = refl
  is_undefined_schema-convert (array_type t) s = refl
  is_undefined_schema-convert (dictionary_type t) s = refl
  is_undefined_schema-convert (interface_type ps) s = refl
  is_undefined_schema-convert (partial_type ps) s = refl
  is_undefined_schema-convert (exact_type n t) s =
      is_undefined_schema-convert t (s ++ exact_super n ∷ [])
  is_undefined_schema-convert (refinement_type n t) s =
      is_undefined_schema-convert t (s ++ refinement_super n ∷ [])
  is_undefined_schema-convert (custom_type j) s = refl

  has_undefined-convert_types :
      (ts : IoTypes L J) → has_undefined (convert_types ts) ≡ any_undefined ts
  unfolding convert
  has_undefined-convert_types no_types = refl
  has_undefined-convert_types (add_type t ts) =
      rw (is_undefined_schema-convert t []) (rw (has_undefined-convert_types ts) refl)

  is_reduced-union :
      (o : Option (List L)) (ts : IoTypes L J)
      → is_reduced (union_schema o (convert_types ts)) ≡ is_optional_union o ts
  unfolding is_reduced
  is_reduced-union none ts = has_undefined-convert_types ts
  is_reduced-union (some vs) ts = refl

  is_reduced-convert :
      (t : IoType L J) (s : List Supertype) → is_reduced (convert t s) ≡ is_optional t
  unfolding convert is_reduced
  is_reduced-convert boolean_type s = refl
  is_reduced-convert number_type s = refl
  is_reduced-convert string_type s = refl
  is_reduced-convert undefined_type s = refl
  is_reduced-convert null_type s = refl
  is_reduced-convert unknown_type s = refl
  is_reduced-convert (literal_type v) s = refl
  is_reduced-convert (union_type ts) s = is_reduced-union (all_literals ts) ts
  is_reduced-convert (intersection_type ts) s = refl
  is_reduced-convert (tuple_type ts) s = refl
  is_reduced-convert (keyof_type ks) s = refl
  is_reduced-convert (array_type t) s = refl
  is_reduced-convert (dictionary_type t) s = refl
  is_reduced-convert (interface_type ps) s = refl
  is_reduced-convert (partial_type ps) s = refl
  is_reduced-convert (exact_type n t) s = is_reduced-convert t (s ++ exact_super n ∷ [])
  is_reduced-convert (refinement_type n t) s = is_reduced-convert t (s ++ refinement_super n ∷ [])
  is_reduced-convert (custom_type j) s = refl

keep-eq : (p q : Text → Bool) (xs : List Text) → ((x : Text) → p x ≡ q x) → keep p xs ≡ keep q xs
keep-eq p q [] h = refl
keep-eq p q (x ∷ xs) h = rw (h x) (rw (keep-eq p q xs h) refl)

keep_all : (xs : List Text) → keep (λ x. true) xs ≡ xs
keep_all [] = refl
keep_all (x ∷ xs) = ap (λ ys. x ∷ ys) (keep_all xs)

keep-keep : (p q : Text → Bool) (xs : List Text) → keep p (keep q xs) ≡ keep (λ x. q x && p x) xs
keep-keep p q [] = refl
keep-keep p q (x ∷ xs) = elim (Bool-cases (q x)) [
  | inl kept ↦ rw kept (rw (keep-keep p q xs) refl)
  | inr dropped ↦ rw dropped (keep-keep p q xs)
]

unrequire-keep :
    (b : Bool) (j : Text) (xs : List Text) → unrequire b j xs ≡ keep (λ k. not (b && k == j)) xs
unfolding unrequire
unrequire-keep true j xs = refl
unrequire-keep false j xs = sym (keep_all xs)

both_not : (a b : Bool) → (not a && not b) ≡ not (a || b)
both_not true b = refl
both_not false b = refl

module _ {L J : Type 0} where
  -- The keys that the schema of an interface requires are those, in order, of which no property is
  -- a union with `undefined`, whatever refinements or exactness stand around the union.
  pub required_keys-keep :
      (ps : IoProps L J) (required : List Text)
      → required_keys ps required ≡ keep (λ k. not (is_optional_key ps k)) required
  unfolding convert
  required_keys-keep no_props required = sym (keep_all required)
  required_keys-keep (add_prop j t ps) required = rw (is_reduced-convert t []) (
      required_keys-keep ps (unrequire (is_optional t) j required)
      ∙ rw (unrequire-keep (is_optional t) j required) (
          keep-keep (λ k. not (is_optional_key ps k)) (λ k. not (is_optional t && k == j)) required
          ∙ keep-eq (λ k. not (is_optional t && k == j) && not (is_optional_key ps k))
              (λ k. not ((is_optional t && k == j) || is_optional_key ps k)) required
              (λ k. both_not (is_optional t && k == j) (is_optional_key ps k))))

  -- The schema of a literal type of a falsy value allows no value, where the same literal is kept
  -- as a member of an intersection.
  io_type_to_json_schema-falsy :
      (truthy : L → Bool) (filter_custom : J → J) (v : L)
      → truthy v ≡ false
      → (io_type_to_json_schema truthy filter_custom (some (literal_type v))
          ≡ some (enum_schema []))
        × (io_type_to_json_schema truthy filter_custom
              (some (intersection_type (add_type (literal_type v) no_types)))
            ≡ some (all_of (add_schema (enum_schema (v ∷ [])) no_schemas)))
  unfolding io_type_to_json_schema convert filter_tree
  io_type_to_json_schema-falsy truthy filter_custom v h = (rw h refl, refl)
