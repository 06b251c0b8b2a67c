-- ===== src/Core/Errors.antt =====
-- packages/core/src/+internal/utils/error.util.ts and the guards of
-- packages/core/src/error/error.model.ts: what the code reads of an error value. The values of
-- properties are a parameter, with their truth and the test against a text.
pub mod Encoding
use marble_js.Base.{
  ◌≡◌, Option, none, some, Bool, false, not, ◌&&◌, List, [], ◌∷◌, map, foldl, Text, codes, ◌==◌,
  Dict, lookup, insert, keep, or_option, if◌then◌else◌,
}

-- `undefined` or `null`; a value without properties; an object with its own properties and the
-- `name` that it inherits, if its prototype has one
pub data ErrorValue (V : Type 0) : Type 0 where
  nullish : ErrorValue V
  plain : V → ErrorValue V
  with_properties : Dict V → Option V → ErrorValue V

module _ {V : Type 0} where
  -- `key === 'name'` is inherited from the prototype when the object has no own name
  abbrev pub inherited : Text → Option V → Option V
  inherited key name = if key == codes "name" then name else none

  -- `data?.[key]`
  unfoldable pub property : Text → ErrorValue V → Option V
  property key nullish = none
  property key (plain v) = none
  property key (with_properties own name) = or_option (lookup key own) (inherited key name)

  abbrev pub own_keys : Dict V → List Text
  own_keys own = map (λ e. e.0) own

  -- `acc[key] = error[key]`
  unfoldable pub copy_value : Text → Option V → Dict V → Dict V
  copy_value key none acc = acc
  copy_value key (some v) acc = insert key v acc

  unfoldable pub copy_properties : ErrorValue V → List Text → Dict V → Dict V
  unfolding copy_value property
  copy_properties error keys acc =
      foldl (λ acc key. copy_value key (property key error) acc) acc keys

  -- `['name', ...Object.getOwnPropertyNames(error)].filter(key => !['stack'].includes(key))`
  unfoldable pub encoded_keys : Dict V → List Text
  encoded_keys own = keep (λ key. not (key == codes "stack")) (codes "name" ∷ own_keys own)

  -- the object that `reduce` fills
  unfoldable pub encode_own : ErrorValue V → ErrorValue V
  unfolding copy_properties encoded_keys
  encode_own nullish = nullish
  encode_own (plain v) = plain v
  encode_own (with_properties own name) =
      with_properties (copy_properties (with_properties own name) (encoded_keys own) []) none

  module _ (truthy : V → Bool) where
    abbrev pub truthy_value : Option V → Bool
    truthy_value none = false
    truthy_value (some v) = truthy v

    -- `!!data?.name && !!data?.message`
    unfoldable pub is_named_error : ErrorValue V → Bool
    unfolding property
    is_named_error value =
        truthy_value (property (codes "name") value)
        && truthy_value (property (codes "message") value)

    -- `!!data?.stack && !!data?.name`
    unfoldable pub is_error : ErrorValue V → Bool
    unfolding property
    is_error value =
        truthy_value (property (codes "stack") value)
        && truthy_value (property (codes "name") value)

    -- `encodeError`
    unfoldable pub encode_error : ErrorValue V → ErrorValue V
    unfolding is_error encode_own
    encode_error error = if not (is_error error) then error else encode_own error

  -- `error?.name === type`, with the test of a value against a text given
  abbrev pub is_text : (V → Text → Bool) → Text → Option V → Bool
  is_text equals t none = false
  is_text equals t (some v) = equals v t

  unfoldable pub has_type : (V → Text → Bool) → Text → ErrorValue V → Bool
  unfolding property
  has_type equals type error = is_text equals type (property (codes "name") error)

  unfoldable pub is_core_error : (V → Text → Bool) → ErrorValue V → Bool
  unfolding has_type
  is_core_error equals error = has_type equals (codes "CoreError") error

  unfoldable pub is_event_error : (V → Text → Bool) → ErrorValue V → Bool
  unfolding has_type
  is_event_error equals error = has_type equals (codes "EventError") error
