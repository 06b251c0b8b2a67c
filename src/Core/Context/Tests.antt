-- ===== src/Core/Context/Tests.antt =====
-- The context of packages/core/src/context/context.ts with two tokens, one of which asks for the
-- other.
use marble_js.Base.{
  ℕ, ◌+◌, ◌≡◌, refl, none, some, eqb, [], ◌∷◌, Text, codes, ◌==◌, lookup, insert, if◌then◌else◌,
  arith, or_else,
}
use marble_js.Core.Context.{
  Kind, ordinary, nullish, found_value, Reader, give, ask, resolved, lazy, Context, root, derived,
  bind_lazily_to, bind_eagerly_to, register, register_all, evaluate, memoize, found_entry,
  context_lookup, resolve_entry, resolve_reader, resolve_tokens, resolve,
}
use marble_js.Core.Context.Memo.{context_lookup-memoized}
use marble_js.Core.Context.Resolution.{Returns, depth, context_lookup-Returns}

abbrev plain : ℕ → Kind ℕ
plain v = ordinary

-- 0 stands for `undefined`
abbrev zero_nullish : ℕ → Kind ℕ
zero_nullish v = if eqb v 0 then nullish else ordinary

-- the second lookup of a token that is `undefined` throws
context_lookup_nullish :
    (context_lookup zero_nullish 5 (codes "b") (root ((codes "b", lazy (give 0)) ∷ []))
      ≡ some (some 0, root ((codes "b", resolved 0) ∷ [])))
    × (context_lookup zero_nullish 5 (codes "b") (root ((codes "b", resolved 0) ∷ [])) ≡ none)
unfolding context_lookup found_entry found_value evaluate memoize lookup insert ◌==◌
context_lookup_nullish = (refl, refl)

abbrev sum_reader : Reader ℕ
sum_reader = ask (codes "b") (λ o. give (or_else o 0 + 1))

abbrev before : Context ℕ
before = derived ((codes "a", lazy sum_reader) ∷ []) (root ((codes "b", lazy (give 4)) ∷ []))

abbrev after : Context ℕ
after = derived ((codes "a", resolved 5) ∷ []) (root ((codes "b", resolved 4) ∷ []))

abbrev rank : Text → ℕ
rank t = if t == codes "a" then 1 else 0

context_lookup_tests : context_lookup plain 5 (codes "a") before ≡ some (some 5, after)
unfolding context_lookup found_entry evaluate memoize lookup insert ◌==◌
context_lookup_tests = refl

resolve_tests :
    resolve plain 5 (
      register_all
        (bind_eagerly_to (codes "a") sum_reader ∷ bind_lazily_to (codes "b") (give 4) ∷ [])
        (root []))
    ≡ some (root ((codes "a", resolved 5) ∷ (codes "b", resolved 4) ∷ []))
unfolding resolve resolve_tokens resolve_entry resolve_reader register_all register bind_eagerly_to
    bind_lazily_to context_lookup found_entry evaluate memoize lookup insert ◌==◌
resolve_tests = refl

context_lookup-memoized_example : context_lookup plain 5 (codes "a") after ≡ some (some 5, after)
context_lookup-memoized_example =
    context_lookup-memoized plain 5 (codes "a") 5 before after refl context_lookup_tests

context_lookup-Returns_example :
    Returns rank (depth rank before) (context_lookup plain 5 (codes "a") before)
unfolding ◌==◌
context_lookup-Returns_example =
    context_lookup-Returns rank plain (λ v. refl) 5 (codes "a") before (omega arith)
      (((omega arith, λ o. tt), tt), (tt, tt))
