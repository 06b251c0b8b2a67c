-- ===== src/Http/Storage.antt =====
-- packages/http/src/server/internal-dependencies/httpRequestMetadataStorage.reader.ts.
use marble_js.Base.{
  ◌≡◌, refl, ◌∙◌, ℕ, Option, none, some, false, [], ◌∷◌, Text, ◌==◌, ==_refl, Dict, lookup, insert,
  erase, lookup-insert, lookup-erase,
}

module _ {M : Type 0} where
  -- `set`, for a true key and metadata that are not `undefined`
  unfoldable pub set_metadata : Option Text → Option M → Dict M → Dict M
  set_metadata none metadata storage = storage
  set_metadata (some []) metadata storage = storage
  set_metadata (some (c ∷ s)) none storage = storage
  set_metadata (some (c ∷ s)) (some metadata) storage = insert (c ∷ s) metadata storage

  -- `get`: the entry, and the storage without it
  unfoldable pub get_metadata : Text → Dict M → Option M × Dict M
  get_metadata key storage = (lookup key storage, erase key storage)

  -- `collect`, by the id in the headers of the request of a response
  unfoldable pub collect : Option Text → Option M → Dict M → Dict M
  unfolding set_metadata
  collect none metadata storage = storage
  collect (some id) metadata storage = set_metadata (some id) metadata storage

  -- The metadata that was collected for an id that is not empty is got once, whatever other keys are
  -- got in between, and then no more.
  get_metadata-collect :
      (c : ℕ) (s other : Text) (metadata : M) (storage : Dict M)
      → ((other == (c ∷ s)) ≡ false)
      → let collected = collect (some (c ∷ s)) (some metadata) storage in
        let between = (get_metadata other collected).1 in
        ((get_metadata (c ∷ s) between).0 ≡ some metadata)
        × ((get_metadata (c ∷ s) (get_metadata (c ∷ s) between).1).0 ≡ none)
  unfolding collect set_metadata get_metadata
  get_metadata-collect c s other metadata storage differs =
      let key = c ∷ s in
      let collected = insert key metadata storage in
      (
        lookup-erase other key collected
            ∙ rw differs (lookup-insert key key metadata storage ∙ rw (==_refl key) refl),
        lookup-erase key key (erase other collected) ∙ rw (==_refl key) refl,
      )
