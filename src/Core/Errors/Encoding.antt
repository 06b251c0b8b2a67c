-- ===== src/Core/Errors/Encoding.antt =====
-- What packages/core/src/+internal/utils/error.util.ts keeps of an error that it encodes.
use marble_js.Base.{
  ◌≡◌, refl, ◌∙◌, ap, inl, inr, none, some, Option, Bool, true, false, not, ◌&&◌, List, [], ◌∷◌,
  Text, codes, ◌==◌, ==_sound, ==_refl, ==_iff, Dict, lookup, lookup-insert, any, keep, Bool-cases,
  or_option, if◌then◌else◌, arith,
}
use marble_js.Core.Errors.{
  ErrorValue, nullish, plain, with_properties, property, inherited, own_keys, copy_value,
  copy_properties, encoded_keys, encode_own, encode_error, is_error,
}

abbrev has_key : Text → List Text → Bool
has_key k keys = any (λ j. j == k) keys

has_key-keep :
    (k s : Text) (keys : List Text)
    → has_key k (keep (λ key. not (key == s)) keys) ≡ (has_key k keys && not (k == s))
has_key-keep k s [] = refl
has_key-keep k s (j ∷ keys) =
    ground (arith, ==_iff j s, ==_iff j k, ==_iff k s, has_key-keep k s keys)

module _ {V : Type 0} where
  lookup-copy_value :
      (j k : Text) (o : Option V) (acc : Dict V)
      → lookup k (copy_value j o acc)
        ≡ (if j == k then or_option o (lookup k acc) else lookup k acc)
  unfolding copy_value
  lookup-copy_value j k none acc = ground arith
  lookup-copy_value j k (some v) acc = ground (arith, lookup-insert j k v acc)

  or_option_twice : (o l : Option V) → or_option o (or_option o l) ≡ or_option o l
  or_option_twice none l = refl
  or_option_twice (some v) l = refl

  lookup-copy_properties :
      (error : ErrorValue V) (k : Text) (keys : List Text) (acc : Dict V)
      → lookup k (copy_properties error keys acc)
        ≡ (if has_key k keys then or_option (property k error) (lookup k acc) else lookup k acc)
  unfolding copy_properties
  lookup-copy_properties error k [] acc = refl
  lookup-copy_properties error k (j ∷ keys) acc =
      let next = copy_value j (property j error) acc in
      let step = lookup-copy_value j k (property j error) acc in
      let rest = lookup-copy_properties error k keys next in
      elim (Bool-cases (j == k)) [
        | inl same ↦
            let at = ap (λ t. property t error) (==_sound j k same) in
            rw same (
              rest
              ∙ rw step (
                  rw same (
                    rw at (rw (or_option_twice (property k error) (lookup k acc)) (ground arith)))))
        | inr other ↦ rw other (rest ∙ rw step (rw other refl))
      ]

  lookup-has_key :
      (k : Text) (own : Dict V) → has_key k (own_keys own) ≡ false → lookup k own ≡ none
  unfolding lookup
  lookup-has_key k [] h = refl
  lookup-has_key k ((j, v) ∷ own) h = ground (arith, lookup-has_key k own)

  or_option-none : (o : Option V) → or_option o none ≡ o
  or_option-none none = refl
  or_option-none (some v) = refl

  found-has_key :
      (n s k : Text) (own : Dict V) (name o : Option V)
      → o ≡ or_option (lookup k own) (if k == n then name else none)
      → (if has_key k (n ∷ own_keys own) && not (k == s) then or_option o none else none)
        ≡ (if k == s then none else o)
  found-has_key n s k own name o e =
      rw (or_option-none o) (ground (arith, ==_iff n k, ==_iff k n, lookup-has_key k own))

  encode_own_lem :
      (own : Dict V) (name : Option V) (k : Text)
      → lookup k (copy_properties (with_properties own name) (encoded_keys own) [])
        ≡ (if k == codes "stack" then none else property k (with_properties own name))
  unfolding encoded_keys property lookup
  encode_own_lem own name k =
      lookup-copy_properties (with_properties own name) k (encoded_keys own) []
      ∙ rw (has_key-keep k (codes "stack") (codes "name" ∷ own_keys own))
          (found-has_key (codes "name") (codes "stack") k own name _ refl)

  inherited-none : (k : Text) → inherited {V = V} k none ≡ none
  inherited-none k = ground arith

  property-encode_own :
      (error : ErrorValue V) (k : Text)
      → property k (encode_own error) ≡ (if k == codes "stack" then none else property k error)
  unfolding encode_own property
  property-encode_own nullish k = ground arith
  property-encode_own (plain v) k = ground arith
  property-encode_own (with_properties own name) k =
      rw (inherited-none k) (or_option-none _ ∙ encode_own_lem own name k)

  -- Of a value that is taken for an error, the encoding has every property, the inherited name
  -- among them, with its value, save the stack, which it does not have.
  pub property-encode_error :
      (truthy : V → Bool) (error : ErrorValue V) (k : Text)
      → is_error truthy error ≡ true
      → property k (encode_error truthy error)
        ≡ (if k == codes "stack" then none else property k error)
  unfolding encode_error
  property-encode_error truthy error k h = rw h (property-encode_own error k)

  is_error-encode_own :
      (truthy : V → Bool) (error : ErrorValue V) → is_error truthy (encode_own error) ≡ false
  unfolding is_error
  is_error-encode_own truthy error =
      rw (property-encode_own error (codes "stack")) (rw (==_refl (codes "stack")) refl)

  -- Encoding an error twice gives what encoding it once gives.
  encode_error-encode_error :
      (truthy : V → Bool) (error : ErrorValue V)
      → encode_error truthy (encode_error truthy error) ≡ encode_error truthy error
  unfolding encode_error is_error
  encode_error-encode_error truthy error = elim (Bool-cases (is_error truthy error)) [
    | inl is ↦ rw is (rw (is_error-encode_own truthy error) refl)
    | inr other ↦ rw other (rw other refl)
  ]

  -- No encoding is taken for an error again: one with a stack loses it.
  pub is_error-encode_error :
      (truthy : V → Bool) (error : ErrorValue V)
      → is_error truthy (encode_error truthy error) ≡ false
  unfolding encode_error
  is_error-encode_error truthy error = elim (Bool-cases (is_error truthy error)) [
    | inl is ↦ rw is (is_error-encode_own truthy error)
    | inr other ↦ rw other other
  ]
