-- ===== src/Cors/Capitalize.antt =====
-- `capitalize` of packages/middleware-cors/src/util.ts.
use marble_js.Base.{
  ℕ, ◌≡◌, refl, List, [], ◌∷◌, ◌++◌, map, Text, codes, to_lower_case, lower, arith, eqb, Bool-cases,
  inl, inr, ap, sym, ◌∙◌, eqb_iff,
}
use marble_js.Cors.Configured.{upper, split_dashes, join, capitalize_part, capitalize, add_to_first}

lower-upper : (c : ℕ) → lower (upper c) ≡ lower c
unfolding lower upper
lower-upper c = ground arith

to_lower_case-append : (s t : Text) → to_lower_case (s ++ t) ≡ to_lower_case s ++ to_lower_case t
unfolding to_lower_case
to_lower_case-append [] t = refl
to_lower_case-append (c ∷ s) t = ap (λ x. lower c ∷ x) (to_lower_case-append s t)

to_lower_case-capitalize_part : (s : Text) → to_lower_case (capitalize_part s) ≡ to_lower_case s
unfolding to_lower_case capitalize_part
to_lower_case-capitalize_part [] = refl
to_lower_case-capitalize_part (c ∷ s) = ap (λ x. x ∷ to_lower_case s) (lower-upper c)

to_lower_case-join :
    (parts : List Text)
    → to_lower_case (join (codes "-") (map capitalize_part parts))
      ≡ to_lower_case (join (codes "-") parts)
unfolding join
to_lower_case-join [] = refl
to_lower_case-join (p ∷ []) = to_lower_case-capitalize_part p
to_lower_case-join (p ∷ q ∷ parts) =
    rw
      (to_lower_case-append (capitalize_part p ++ codes "-")
        (join (codes "-") (map capitalize_part (q ∷ parts))))
      (rw (to_lower_case-append (capitalize_part p) (codes "-")) (
        rw (to_lower_case-append (p ++ codes "-") (join (codes "-") (q ∷ parts))) (
          rw (to_lower_case-append p (codes "-"))
            (rw (to_lower_case-capitalize_part p) (rw (to_lower_case-join (q ∷ parts)) refl)))))

join-dash : join (codes "-") (split_dashes []) ≡ []
unfolding join split_dashes
join-dash = refl

join-add_to_first :
    (c : ℕ) (parts : List Text)
    → join (codes "-") (add_to_first c parts) ≡ c ∷ join (codes "-") parts
unfolding join
join-add_to_first c [] = refl
join-add_to_first c (p ∷ []) = refl
join-add_to_first c (p ∷ q ∷ parts) = refl

abbrev Cons : List Text → Type 0
Cons [] = ⊥
Cons (_ ∷ _) = Unit

add_to_first-Cons : (c : ℕ) (parts : List Text) → Cons (add_to_first c parts)
add_to_first-Cons c [] = tt
add_to_first-Cons c (p ∷ parts) = tt

split_dashes-Cons : (s : Text) → Cons (split_dashes s)
unfolding split_dashes
split_dashes-Cons [] = tt
split_dashes-Cons (c ∷ s) = elim (Bool-cases (eqb c b'-')) [
  | inl dash ↦ rw dash tt
  | inr plain ↦ rw plain (add_to_first-Cons c (split_dashes s))
]

join-Cons_empty :
    (parts : List Text) → Cons parts → join (codes "-") ([] ∷ parts) ≡ b'-' ∷ join (codes "-") parts
unfolding join
join-Cons_empty [] h = elim h [ ]
join-Cons_empty (p ∷ parts) h = refl

join-split_dashes : (s : Text) → join (codes "-") (split_dashes s) ≡ s
unfolding split_dashes
join-split_dashes [] = join-dash
join-split_dashes (c ∷ s) = elim (Bool-cases (eqb c b'-')) [
  | inl dash ↦ rw dash (
      join-Cons_empty (split_dashes s) (split_dashes-Cons s)
      ∙ rw (join-split_dashes s) (ap (λ x. x ∷ s) (sym ((eqb_iff c b'-').0 dash))))
  | inr plain ↦
      rw plain (join-add_to_first c (split_dashes s) ∙ ap (λ x. c ∷ x) (join-split_dashes s))
]

-- A capitalized header reads as the header itself in lower case, so it names the same HTTP header.
to_lower_case-capitalize : (s : Text) → to_lower_case (capitalize s) ≡ to_lower_case s
unfolding capitalize
to_lower_case-capitalize s =
    rw (to_lower_case-join (split_dashes s)) (ap to_lower_case (join-split_dashes s))
