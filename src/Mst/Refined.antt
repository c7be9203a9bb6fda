-- ===== src/Mst/Refined.antt =====
-- The class `Mst` against a finite map from keys to CIDs.
use compute_contract_referen.Base.{
  refl, sym, ◌≡◌, ◌∙◌, ◌⊎◌, inl, inr, ℕ, Bool, true, false, Bool-cases, Option-cases, if◌then◌else◌,
  List, Text, text_eq, text_eq_iff, lookup, has, put, has-lookup, lookup-put, lookup-delete, none,
  some, Option, Dict, ok,
}
use compute_contract_referen.Mst.{MstNode, leading_zeros, is_valid_mst_key, get}
use compute_contract_referen.Mst.Ordered.{leaves}
use compute_contract_referen.Mst.Lookup.{get-lookup}
use compute_contract_referen.Mst.Cached.{
  Mst, node_or_empty, add, update_node, mst_get, mst_set, mst_delete,
}
use compute_contract_referen.Mst.Trees.{
  IsSearchTree, Added, add-Added, update-Added, delete-Removed,
}

-- The tree is a search tree, layers included, with the entries of the cache: as `add`, `update` and
-- `delete` keep it. `deserializeNodeData` may give a tree that is not layered.
pub record IsCached (s : Mst) : Type 0 where
  pub search_tree : IsSearchTree (node_or_empty s.tree)
  pub agrees : (key : Text) → lookup key s.all ≡ lookup key (leaves (node_or_empty s.tree).entries)

has-cases :
    (key : Text) (d : Dict Text)
    → (has key d ≡ false) × (lookup key d ≡ none)
      ⊎ (has key d ≡ true) × ((v : Text) × (lookup key d ≡ some v))
has-cases key d = elim (Option-cases (lookup key d)) [
  | inl gone ↦ inl (rw (has-lookup key d, gone) refl, gone)
  | inr (v, e) ↦ inr (rw (has-lookup key d, e) refl, (v, e))
]

-- Whether the key is there or not, `set` changes the tree to one with the key.
set-Added :
    (sha256 : Text → List ℕ) (key value : Text) (s : Mst)
    → IsCached s
    → is_valid_mst_key key ≡ true
    → (node' : MstNode) × ((if has key s.all
          then update_node key value (node_or_empty s.tree)
          else add (leading_zeros (sha256 key)) key value (node_or_empty s.tree))
        ≡ ok node')
      × Added key value (node_or_empty s.tree) node'
set-Added sha256 key value s c valid = elim (has-cases key s.all) [
  | inl (absent, gone) ↦ rw absent (
      add-Added (leading_zeros (sha256 key)) key value (node_or_empty s.tree) c.search_tree valid
        (sym (c.agrees key) ∙ gone))
  | inr (present, (old, found)) ↦ rw present (
      update-Added key old value (node_or_empty s.tree) c.search_tree valid
        (sym (c.agrees key) ∙ found))
]

-- In a state where the cache and the tree agree, setting a valid key, there before or not and of any
-- layer, succeeds; cache and tree agree again, and the cache has the value at the key and all else as
-- before.
pub mst_set-IsCached :
    (sha256 : Text → List ℕ) (key value : Text) (s : Mst)
    → IsCached s
    → is_valid_mst_key key ≡ true
    → (s' : Mst) × (mst_set sha256 key value s ≡ ok s')
      × IsCached s'
      × ((j : Text) → lookup j s'.all ≡ (if text_eq key j then some value else lookup j s.all))
unfolding mst_set
mst_set-IsCached sha256 key value s c valid =
    let (node', e, (t, looks)) = set-Added sha256 key value s c valid in
    rw e (
      record { tree = some node'; all = put key value s.all },
      refl,
      record {
        search_tree = t;
        agrees = λ j. rw (lookup-put key j value s.all, looks j, c.agrees j) refl;
      },
      λ j. lookup-put key j value s.all,
    )

delete_tree-IsCached :
    (key : Text) (tree : Option MstNode) (all : Dict Text)
    → IsCached (record { tree = tree; all = all })
    → IsCached (mst_delete key (record { tree = tree; all = all }))
      × ((j : Text)
          → lookup j (mst_delete key (record { tree = tree; all = all })).all
            ≡ (if text_eq key j then none else lookup j all))
unfolding mst_delete lookup leaves
delete_tree-IsCached key none all c = (c, λ j. nowhere (text_eq key j) (lookup j all) (c.agrees j))
  where
    nowhere : (b : Bool) (found : Option Text) → found ≡ none → found ≡ (if b then none else found)
    nowhere true found h = h
    nowhere false found h = refl
delete_tree-IsCached key (some node) all c = elim (has-cases key all) [
  | inl (absent, gone) ↦ rw absent (
    c,
    λ j. elim (Bool-cases (text_eq key j)) [
      | inr other ↦ rw other refl
      | inl same ↦ rw (same, ← (text_eq_iff key j).0 same) gone
    ],
  )
  | inr (present, (v, found)) ↦
      let (node', e, t, looks) =
        delete-Removed key v node c.search_tree (sym (c.agrees key) ∙ found) in
      rw (present, e)
        (
          record {
            search_tree = t;
            agrees = λ j. rw (lookup-delete key j all, looks j, c.agrees j) refl;
          },
          λ j. lookup-delete key j all,
        )
]

-- Deleting a key keeps cache and tree in agreement, and leaves the cache without the key and as
-- before everywhere else; what the source catches is never thrown.
pub mst_delete-IsCached :
    (key : Text) (s : Mst)
    → IsCached s
    → IsCached (mst_delete key s)
      × ((j : Text)
          → lookup j (mst_delete key s).all ≡ (if text_eq key j then none else lookup j s.all))
mst_delete-IsCached key s c = delete_tree-IsCached key s.tree s.all c

get_tree :
    (key : Text) (tree : Option MstNode) (all : Dict Text)
    → IsCached (record { tree = tree; all = all })
    → mst_get key (record { tree = tree; all = all }) ≡ lookup key all
unfolding mst_get leaves
get_tree key tree all c = elim (Option-cases (lookup key all)) [
  | inr (v, e) ↦ rw (e, mst_get) refl
  | inl gone ↦ rw (gone, mst_get) (fallback tree c gone)
]
  where
    fallback :
        (tree : Option MstNode)
        → IsCached (record { tree = tree; all = all })
        → lookup key all ≡ none
        → (elim tree [ none ↦ none | some node ↦ get key node.entries ]) ≡ none
    fallback none c gone = refl
    fallback (some node) c gone =
        get-lookup key node.entries c.search_tree.sorted c.search_tree.alternates
        ∙ (sym (c.agrees key) ∙ gone)

-- In a state where the cache and the tree agree, `Mst.get` gives what the cache has, and that is what
-- the search in the tree finds.
pub mst_get-get :
    (key : Text) (s : Mst)
    → IsCached s
    → (mst_get key s ≡ lookup key s.all) × (mst_get key s ≡ get key (node_or_empty s.tree).entries)
mst_get-get key s c =
    let cached = get_tree key s.tree s.all c in
    (
      cached,
      cached
          ∙ (c.agrees key
              ∙ sym (
                  get-lookup key (node_or_empty s.tree).entries c.search_tree.sorted
                    c.search_tree.alternates)),
    )
