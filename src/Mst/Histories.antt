-- ===== src/Mst/Histories.antt =====
-- Any history of an `Mst`, from the one that its constructor makes.
use compute_contract_referen.Base.{
  refl, ◌≡◌, ◌∙◌, ℕ, true, List, [], ◌∷◌, All, Text, lookup, put, delete, lookup-put, lookup-delete,
  none, Dict, Result, ok, ◌>>=◌,
}
use compute_contract_referen.Mst.{MstError, is_valid_mst_key}
use compute_contract_referen.Mst.Ordered.{leaves}
use compute_contract_referen.Mst.Cached.{Mst, mst_get, mst_set, mst_delete}
use compute_contract_referen.Mst.Refined.{
  IsCached, mst_set-IsCached, mst_delete-IsCached, mst_get-get,
}

pub data Change : Type 0 where
  setting : Text → Text → Change
  deleting : Text → Change

-- `new Mst(store, null)`
abbrev pub new_mst : Mst
new_mst = record { tree = none; all = [] }

module _ (sha256 : Text → List ℕ) where
  unfoldable pub apply_changes : List Change → Mst → Result MstError Mst
  apply_changes [] s = ok s
  apply_changes (setting key value ∷ changes) s =
      mst_set sha256 key value s >>= apply_changes changes
  apply_changes (deleting key ∷ changes) s = apply_changes changes (mst_delete key s)

-- What the changes do to a map.
abbrev pub apply_to_map : List Change → Dict Text → Dict Text
apply_to_map [] d = d
apply_to_map (setting key value ∷ changes) d = apply_to_map changes (put key value d)
apply_to_map (deleting key ∷ changes) d = apply_to_map changes (delete key d)

abbrev pub HasValidKey : Change → Type 0
HasValidKey (setting key value) = is_valid_mst_key key ≡ true
HasValidKey (deleting key) = Unit

pub new_mst-IsCached : IsCached new_mst
unfolding leaves
new_mst-IsCached = record {
  search_tree = record { sorted = tt; alternates = tt; layered = tt };
  agrees = λ j. refl;
}

module _ (sha256 : Text → List ℕ) where
  history_from :
      (changes : List Change) (s : Mst) (d : Dict Text)
      → All HasValidKey changes
      → IsCached s
      → ((j : Text) → lookup j s.all ≡ lookup j d)
      → (s' : Mst) × (apply_changes sha256 changes s ≡ ok s')
        × IsCached s'
        × ((j : Text) → lookup j s'.all ≡ lookup j (apply_to_map changes d))
  unfolding apply_changes
  history_from [] s d v c same = (s, refl, c, same)
  history_from (setting key value ∷ changes) s d (valid, v) c same =
      let (s', e, c', looks) = mst_set-IsCached sha256 key value s c valid in
      rw e (
        history_from changes s' (put key value d) v c'
          (λ j. rw (looks j, lookup-put key j value d, same j) refl))
  history_from (deleting key ∷ changes) s d (_, v) c same =
      let (c', looks) = mst_delete-IsCached key s c in
      history_from changes (mst_delete key s) (delete key d) v c'
        (λ j. rw (looks j, lookup-delete key j d, same j) refl)

  -- A history of sets, of valid keys, and deletions in any order and of any layers, starting from an
  -- empty tree, throws nothing, and each key is then looked up as in a map to which the same changes
  -- were made.
  pub history_refines_map :
      (changes : List Change)
      → All HasValidKey changes
      → (s : Mst) × (apply_changes sha256 changes new_mst ≡ ok s)
        × ((j : Text) → mst_get j s ≡ lookup j (apply_to_map changes []))
  history_refines_map changes v =
      let (s, e, c, looks) = history_from changes new_mst [] v new_mst-IsCached (λ j. refl) in
      (s, e, λ j. (mst_get-get j s c).0 ∙ looks j)
