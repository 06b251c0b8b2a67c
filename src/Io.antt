-- ===== src/Io.antt =====
-- packages/middleware-io/src/io.json-schema.ts: the JSON schema of an io-ts type. Literal values and
-- custom schemas are parameters, with the truth of a value.
mod Required
mod Tests
pub mod Validation
use marble_js.Base.{
  ℕ, zero, suc, Option, none, some, Bool, true, false, not, ◌&&◌, ◌||◌, List, [], ◌∷◌, ◌++◌, Text,
  codes, ◌==◌, any, keep, if◌then◌else◌,
}

-- an io-ts type by its tag, over the literals `L` and the custom schemas `J`
mutual
  pub data IoType (L J : Type 0) : Type 0 where
    boolean_type number_type string_type undefined_type null_type unknown_type : IoType L J
    literal_type : L → IoType L J
    union_type intersection_type tuple_type : IoTypes L J → IoType L J
    keyof_type : List Text → IoType L J
    array_type dictionary_type : IoType L J → IoType L J
    interface_type partial_type : IoProps L J → IoType L J
    exact_type refinement_type : Text → IoType L J → IoType L J
    custom_type : J → IoType L J

  pub data IoTypes (L J : Type 0) : Type 0 where
    no_types : IoTypes L J
    add_type : IoType L J → IoTypes L J → IoTypes L J

  pub data IoProps (L J : Type 0) : Type 0 where
    no_props : IoProps L J
    add_prop : Text → IoType L J → IoProps L J → IoProps L J

-- an entry of `supertypes`: its tag, and its name
pub data Supertype : Type 0 where
  exact_super refinement_super : Text → Supertype

abbrev pub is_int : Supertype → Bool
is_int (exact_super n) = n == codes "Int"
is_int (refinement_super n) = n == codes "Int"

abbrev pub is_exact : Supertype → Bool
is_exact (exact_super n) = true
is_exact (refinement_super n) = false

-- The schemas that `convert` builds. `undefined_schema` is the frozen `undefinedJsonType`, and the
-- Boolean is `additionalProperties`; a bare
-- schema is one whose field `items` or `additionalProperties` was dropped.
mutual
  pub data JsonSchema (L J : Type 0) : Type 0 where
    type_schema : Text → JsonSchema L J
    undefined_schema : JsonSchema L J
    enum_schema : List L → JsonSchema L J
    keys_schema : List Text → JsonSchema L J
    any_of all_of : JsonSchemas L J → JsonSchema L J
    array_schema : JsonSchema L J → JsonSchema L J
    bare_array_schema : JsonSchema L J
    tuple_schema : JsonSchemas L J → ℕ → JsonSchema L J
    object_schema : JsonProps L J → List Text → Bool → JsonSchema L J
    partial_schema : JsonProps L J → Bool → JsonSchema L J
    dictionary_schema : JsonSchema L J → JsonSchema L J
    bare_object_schema : JsonSchema L J
    custom_schema : J → JsonSchema L J

  pub data JsonSchemas (L J : Type 0) : Type 0 where
    no_schemas : JsonSchemas L J
    add_schema : JsonSchema L J → JsonSchemas L J → JsonSchemas L J

  pub data JsonProps (L J : Type 0) : Type 0 where
    no_schema_props : JsonProps L J
    add_schema_prop : Text → JsonSchema L J → JsonProps L J → JsonProps L J

abbrev pub prepend {ℓ} : {A : Type ℓ} → A → Option (List A) → Option (List A)
prepend a none = none
prepend a (some rest) = some (a ∷ rest)

-- the two schemas of a union
abbrev pub union_schema : {L J : Type 0} → Option (List L) → JsonSchemas L J → JsonSchema L J
union_schema (some vs) ss = enum_schema vs
union_schema none ss = any_of ss

abbrev pub non_empty_text : Text → Bool
non_empty_text [] = false
non_empty_text (_ ∷ _) = true

-- `required.filter(k => k !== key)` when the value of the key was reduced
unfoldable pub unrequire : Bool → Text → List Text → List Text
unrequire true key required = keep (λ k. not (k == key)) required
unrequire false key required = required

module _ {L J : Type 0} where
  -- `type.types.every(element => getTag(element) === IoTag.LITERAL)`, with the values
  abbrev pub all_literals : IoTypes L J → Option (List L)
  all_literals no_types = some []
  all_literals (add_type (literal_type v) ts) = prepend v (all_literals ts)
  all_literals (add_type _ ts) = none

  unfoldable pub count_types : IoTypes L J → ℕ
  count_types no_types = 0
  count_types (add_type t ts) = suc (count_types ts)

  -- `e === undefinedJsonType`
  abbrev pub is_undefined_schema : JsonSchema L J → Bool
  is_undefined_schema undefined_schema = true
  is_undefined_schema _ = false

  abbrev pub has_undefined : JsonSchemas L J → Bool
  has_undefined no_schemas = false
  has_undefined (add_schema s ss) = is_undefined_schema s || has_undefined ss

  -- `elements.filter(e => e !== undefinedJsonType)`
  abbrev pub without_undefined : JsonSchemas L J → JsonSchemas L J
  without_undefined no_schemas = no_schemas
  without_undefined (add_schema s ss) =
      if is_undefined_schema s then without_undefined ss else add_schema s (without_undefined ss)

  -- `removeUndefinedValuesFromUnion`: what it returns, and the schema as it leaves it
  unfoldable pub is_reduced : JsonSchema L J → Bool
  is_reduced (any_of ss) = has_undefined ss
  is_reduced _ = false

  unfoldable pub remove_undefined_values : JsonSchema L J → JsonSchema L J
  remove_undefined_values (any_of ss) = any_of (without_undefined ss)
  remove_undefined_values s = s

  abbrev pub keys_of : IoProps L J → List Text
  keys_of no_props = []
  keys_of (add_prop k t ps) = k ∷ keys_of ps

  -- `convert`, with its reductions over the properties of an interface
  unfoldable mutual
    unfolding is_reduced remove_undefined_values unrequire count_types

    pub convert : IoType L J → List Supertype → JsonSchema L J
    convert boolean_type supertypes = type_schema (codes "boolean")
    convert number_type supertypes =
        type_schema (if any is_int supertypes then codes "integer" else codes "number")
    convert string_type supertypes = type_schema (codes "string")
    convert undefined_type supertypes = undefined_schema
    convert null_type supertypes = type_schema (codes "null")
    convert unknown_type supertypes = type_schema (codes "object")
    convert (literal_type v) supertypes = enum_schema (v ∷ [])
    convert (union_type ts) supertypes = union_schema (all_literals ts) (convert_types ts)
    convert (intersection_type ts) supertypes = all_of (convert_types ts)
    convert (tuple_type ts) supertypes = tuple_schema (convert_types ts) (count_types ts)
    convert (keyof_type ks) supertypes = keys_schema ks
    convert (array_type t) supertypes = array_schema (convert t [])
    convert (dictionary_type t) supertypes = dictionary_schema (convert t [])
    convert (interface_type ps) supertypes =
        object_schema (convert_interface ps) (required_keys ps (keys_of ps))
          (not (any is_exact supertypes))
    convert (partial_type ps) supertypes = partial_schema (convert_props ps) true
    convert (exact_type n t) supertypes = convert t (supertypes ++ exact_super n ∷ [])
    convert (refinement_type n t) supertypes = convert t (supertypes ++ refinement_super n ∷ [])
    convert (custom_type j) supertypes = custom_schema j

    pub convert_types : IoTypes L J → JsonSchemas L J
    convert_types no_types = no_schemas
    convert_types (add_type t ts) = add_schema (convert t []) (convert_types ts)

    pub convert_props : IoProps L J → JsonProps L J
    convert_props no_props = no_schema_props
    convert_props (add_prop k t ps) = add_schema_prop k (convert t []) (convert_props ps)

    pub convert_interface : IoProps L J → JsonProps L J
    convert_interface no_props = no_schema_props
    convert_interface (add_prop k t ps) =
        add_schema_prop k (remove_undefined_values (convert t [])) (convert_interface ps)

    pub required_keys : IoProps L J → List Text → List Text
    required_keys no_props required = required
    required_keys (add_prop k t ps) required =
        required_keys ps (unrequire (is_reduced (convert t [])) k required)

  -- `filterTree` of what `convert` built: it drops the fields whose value is `undefinedJsonType`, and
  -- of an array it keeps the elements that are not falsy, as they are
  module _ (truthy : L → Bool) (filter_custom : J → J) where
    unfoldable mutual
      pub filter_tree : JsonSchema L J → JsonSchema L J
      filter_tree (type_schema t) = type_schema t
      filter_tree undefined_schema = type_schema (codes "undefined")
      filter_tree (enum_schema vs) = enum_schema (keep truthy vs)
      filter_tree (keys_schema ks) = keys_schema (keep non_empty_text ks)
      filter_tree (any_of ss) = any_of ss
      filter_tree (all_of ss) = all_of ss
      filter_tree (array_schema undefined_schema) = bare_array_schema
      filter_tree (array_schema s) = array_schema (filter_tree s)
      filter_tree bare_array_schema = bare_array_schema
      filter_tree (tuple_schema ss n) = tuple_schema ss n
      filter_tree (object_schema ps required additional) =
          object_schema (filter_props ps) (keep non_empty_text required) additional
      filter_tree (partial_schema ps additional) = partial_schema (filter_props ps) additional
      filter_tree (dictionary_schema undefined_schema) = bare_object_schema
      filter_tree (dictionary_schema s) = dictionary_schema (filter_tree s)
      filter_tree bare_object_schema = bare_object_schema
      filter_tree (custom_schema j) = custom_schema (filter_custom j)

      pub filter_props : JsonProps L J → JsonProps L J
      filter_props no_schema_props = no_schema_props
      filter_props (add_schema_prop k undefined_schema ps) = filter_props ps
      filter_props (add_schema_prop k s ps) = add_schema_prop k (filter_tree s) (filter_props ps)

    unfoldable pub io_type_to_json_schema : Option (IoType L J) → Option (JsonSchema L J)
    unfolding convert filter_tree
    io_type_to_json_schema none = none
    io_type_to_json_schema (some t) = some (filter_tree (convert t []))
