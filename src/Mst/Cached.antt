-- ===== src/Mst/Cached.antt =====
-- The class `Mst` of src/typescript/lib/hono-factory-atproto-repo/mst/mst.ts: a tree and a flat cache of
-- its leaves. The root's CID and the blocks that are stored are left out.
use compute_contract_referen.Base.{
  ℕ, Option, none, some, List, if◌then◌else◌, Text, Dict, lookup, has, put, delete, Result, ok, err,
}
use compute_contract_referen.Mst.{
  no_entries, MstNode, MstError, invalid_key, leading_zeros, is_valid_mst_key, get, map_ok, add_at,
  add_below,
}
use compute_contract_referen.Mst.Removal.{update, delete_recurse, trim_top}

pub record Mst : Type 0 where
  -- `#tree`, which is null until it is loaded or set
  pub tree : Option MstNode
  -- `#all`
  pub all : Dict Text

-- `MstNode.create([], 0)`
abbrev pub empty_node : MstNode
empty_node = record { layer = 0; entries = no_entries }

abbrev pub node_or_empty : Option MstNode → MstNode
node_or_empty none = empty_node
node_or_empty (some node) = node

-- `MstNode.add`
unfoldable pub add : ℕ → Text → Text → MstNode → Result MstError MstNode
unfolding is_valid_mst_key add_below
add key_zeros key value node =
    if is_valid_mst_key key
    then add_at (add_below node.layer key_zeros key value node.entries) node.layer key_zeros key
        value node.entries
    else err (invalid_key key)

-- `MstNode.update`
unfoldable pub update_node : Text → Text → MstNode → Result MstError MstNode
unfolding is_valid_mst_key update
update_node key value node =
    if is_valid_mst_key key
    then map_ok (λ e. record node { entries = e }) (update key value node.entries)
    else err (invalid_key key)

-- `MstNode.delete`
unfoldable pub delete_node : Text → MstNode → Result MstError MstNode
unfolding delete_recurse trim_top
delete_node key node =
    map_ok (λ e. record { layer = (trim_top node.layer e).0; entries = (trim_top node.layer e).1 })
      (delete_recurse key node.entries)

-- `Mst.get`
unfoldable pub mst_get : Text → Mst → Option Text
unfolding lookup get
mst_get key s = elim (lookup key s.all) [
  | some cached ↦ some cached
  | none ↦ elim s.tree [ none ↦ none | some node ↦ get key node.entries ]
]

-- `Mst.set`, with the hash of keys
unfoldable pub mst_set : (Text → List ℕ) → Text → Text → Mst → Result MstError Mst
unfolding has put add update_node leading_zeros
mst_set sha256 key value s =
    let node = node_or_empty s.tree in
    map_ok (λ changed. record { tree = some changed; all = put key value s.all })
      (if has key s.all
        then update_node key value node
        else add (leading_zeros (sha256 key)) key value node)

-- `Mst.delete`; what the tree throws is caught.
unfoldable pub mst_delete : Text → Mst → Mst
unfolding has delete delete_node
mst_delete key s = elim s.tree [
  | none ↦ s
  | some node ↦
      if has key s.all
      then elim (delete_node key node) [
        | ok changed ↦ record { tree = some changed; all = delete key s.all }
        | err e ↦ record s { all = delete key s.all }
      ]
      else s
]
