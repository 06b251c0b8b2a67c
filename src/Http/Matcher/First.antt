-- ===== src/Http/Matcher/First.antt =====
-- `matchRoute` takes the first routing item that fits (http.router.matcher.ts).
use marble_js.Base.{
  ◌≡◌, refl, sym, ap, ◌∙◌, ◌≢◌, ◌⊎◌, inl, inr, ◌↔◌, Option, none, some, List, [], ◌∷◌, ◌++◌, Text,
  arith, All, Option-cases,
}
use marble_js.Http.Path.{PathToRegexp}
use marble_js.Http.Matcher.{
  Decoded, BootstrappedMethod, BootstrappedRoutingItem, Found, not_matched, bind_parameters,
  found_in, matched_method, match_route, Bound, bound, unbound,
}

module _ (engine : PathToRegexp) {E M : Type 0} where
  -- The item is passed over: its expression does not match, or it has neither the method nor `*`.
  abbrev pub IsPassed : Text → Text → BootstrappedRoutingItem E M engine → Type 0
  IsPassed url method item =
      (engine.exec item.reg_exp url ≡ none) ⊎ (matched_method method item.methods ≡ none)

  abbrev Fits :
      Text
      → Text
      → BootstrappedRoutingItem E M engine
      → List (Option Text)
      → BootstrappedMethod E M
      → Type 0
  Fits url method item captures entry =
      (engine.exec item.reg_exp url ≡ some captures)
      × (matched_method method item.methods ≡ some entry)

  IsPassed-or_Fits :
      (url method : Text) (item : BootstrappedRoutingItem E M engine)
      → IsPassed url method item
        ⊎ ((captures : List (Option Text)) × (entry : BootstrappedMethod E M) × (Fits url method
              item captures entry))
  IsPassed-or_Fits url method item = elim (Option-cases (engine.exec item.reg_exp url)) [
    | inl misses ↦ inl (inl misses)
    | inr (captures, matches) ↦ elim (Option-cases (matched_method method item.methods)) [
      | inl lacks ↦ inl (inr lacks)
      | inr (entry, has) ↦ inr (captures, entry, (matches, has))
    ]
  ]

module _ (decode : Text → Decoded) (engine : PathToRegexp) {E M : Type 0} where
  match_route-passed :
      (i : BootstrappedRoutingItem E M engine) (items : List (BootstrappedRoutingItem E M engine))
      (url method : Text)
      → IsPassed engine url method i
      → match_route decode engine (i ∷ items) url method
        ≡ match_route decode engine items url method
  unfolding match_route
  match_route-passed i items url method (inl misses) = ground arith
  match_route-passed i items url method (inr lacks) = ground arith

  match_route-Fits :
      (i : BootstrappedRoutingItem E M engine) (items : List (BootstrappedRoutingItem E M engine))
      (url method : Text) (captures : List (Option Text)) (entry : BootstrappedMethod E M)
      → Fits engine url method i captures entry
      → match_route decode engine (i ∷ items) url method
        ≡ found_in entry i.path (bind_parameters decode entry.parameters captures)
  unfolding match_route
  match_route-Fits i items url method captures entry (matches, has) = ground arith

  found_in-ne-not_matched :
      (m : BootstrappedMethod E M) (path : Text) (b : Bound) → found_in m path b ≢ not_matched
  found_in-ne-not_matched m path (bound d) h = cc
  found_in-ne-not_matched m path (unbound e) h = cc

  -- No route is found exactly when every item is passed over.
  pub match_route-eq-not_matched_iff :
      (items : List (BootstrappedRoutingItem E M engine)) (url method : Text)
      → (match_route decode engine items url method ≡ not_matched)
        ↔ All (IsPassed engine url method) items
  unfolding match_route
  match_route-eq-not_matched_iff [] url method = (λ _. tt, λ _. refl)
  match_route-eq-not_matched_iff (i ∷ items) url method =
      let (to, from) = match_route-eq-not_matched_iff items url method in
      elim (IsPassed-or_Fits engine url method i) [
        | inl passed ↦
            let same = match_route-passed i items url method passed in
            (λ h. (passed, to (sym same ∙ h)), λ h. same ∙ from h.1)
        | inr (captures, entry, fits) ↦
            let same = match_route-Fits i items url method captures entry fits in
            (
              λ h. absurd (found_in-ne-not_matched entry i.path _ (sym same ∙ h)),
              λ h. absurd (ground arith),
            )
      ]

  -- The item at which the search ends: those before it are passed over, it matches the url and has
  -- the method (or `*`), and the result is made from its captures, its method and its path.
  pub record IsChosen (items : List (BootstrappedRoutingItem E M engine)) (url method : Text)
      (f : Found E M) : Type 0 where
    pub before : List (BootstrappedRoutingItem E M engine)
    pub item : BootstrappedRoutingItem E M engine
    pub after : List (BootstrappedRoutingItem E M engine)
    pub captures : List (Option Text)
    pub entry : BootstrappedMethod E M
    pub split : items ≡ before ++ item ∷ after
    pub passed : All (IsPassed engine url method) before
    pub matches : engine.exec item.reg_exp url ≡ some captures
    pub has_method : matched_method method item.methods ≡ some entry
    pub result : f ≡ found_in entry item.path (bind_parameters decode entry.parameters captures)

  IsChosen-cons :
      (i : BootstrappedRoutingItem E M engine) (items : List (BootstrappedRoutingItem E M engine))
      (url method : Text) {f g : Found E M}
      → IsPassed engine url method i
      → g ≡ f
      → IsChosen items url method f
      → IsChosen (i ∷ items) url method g
  IsChosen-cons i items url method passed same c = record {
    before = i ∷ c.before;
    item = c.item;
    after = c.after;
    captures = c.captures;
    entry = c.entry;
    split = ap (λ l. i ∷ l) c.split;
    passed = (passed, c.passed);
    matches = c.matches;
    has_method = c.has_method;
    result = same ∙ c.result;
  }

  -- Any outcome but `undefined` comes from the first item that is not passed over.
  pub match_route-IsChosen :
      (items : List (BootstrappedRoutingItem E M engine)) (url method : Text)
      → match_route decode engine items url method ≢ not_matched
      → IsChosen items url method (match_route decode engine items url method)
  unfolding match_route
  match_route-IsChosen [] url method h = absurd (h refl)
  match_route-IsChosen (i ∷ items) url method h = elim (IsPassed-or_Fits engine url method i) [
    | inl passed ↦
        let same = match_route-passed i items url method passed in
        IsChosen-cons i items url method passed same
          (match_route-IsChosen items url method (λ e. h (same ∙ e)))
    | inr (captures, entry, fits) ↦ record {
      before = [];
      item = i;
      after = items;
      captures = captures;
      entry = entry;
      split = refl;
      passed = tt;
      matches = fits.0;
      has_method = fits.1;
      result = match_route-Fits i items url method captures entry fits;
    }
  ]
