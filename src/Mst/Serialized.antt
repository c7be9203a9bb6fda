-- ===== src/Mst/Serialized.antt =====
-- `serializeNodeData` and the keys of `deserializeNodeData` in
-- src/typescript/lib/hono-factory-atproto-repo/mst/mst.ts. The CID of a node's data is a parameter.
pub mod Keys
use compute_contract_referen.Base.{
  ℕ, suc, ◌+◌, Bool, true, false, Option, none, some, List, [], ◌∷◌, ◌++◌, ◌==◌, if◌then◌else◌,
  take, drop, Text, Dict, Result, ok, err, ◌>>=◌,
}
use compute_contract_referen.Mst.{Entries, no_entries, leaf_node, mst_node, is_valid_mst_key}

pub record TreeNodeEntry : Type 0 where
  -- how much of the key before is shared
  pub p : ℕ
  pub k : Text
  pub v : Text
  pub t : Option Text

pub record TreeNodeData : Type 0 where
  pub l : Option Text
  pub e : List TreeNodeEntry

pub data SerialError : Type 0 where
  adjacent_subtrees : SerialError
  not_valid_key : Text → SerialError

-- `countPrefixLen`
unfoldable pub count_prefix_len : Text → Text → ℕ
count_prefix_len [] b = 0
count_prefix_len (c ∷ a) [] = 0
count_prefix_len (c ∷ a) (d ∷ b) = let rest = count_prefix_len a b in if c == d then suc rest else 0

module _ (cid_for_node_data : TreeNodeData → Text) where
  -- The entry of a leaf, before what the rest has given.
  abbrev pub with_leaf : Text → Text → Text → TreeNodeData → Result SerialError TreeNodeData
  with_leaf last key value rest =
      if is_valid_mst_key key
      then ok (record {
        l = none;
        e =
            record {
              p = count_prefix_len last key;
              k = drop (count_prefix_len last key) key;
              v = value;
              t = rest.l;
            }
            ∷ rest.e;
      })
      else err (not_valid_key key)

  -- The pointer of a subtree, before what the rest has given.
  abbrev pub with_subtree : TreeNodeData → TreeNodeData → Result SerialError TreeNodeData
  with_subtree sub rest = elim rest.l [
    | none ↦ ok (record { l = some (cid_for_node_data sub); e = rest.e })
    | some next ↦ err adjacent_subtrees
  ]

  -- The entries, behind the key that came last.
  unfoldable pub serialize_entries : Text → Entries → Result SerialError TreeNodeData
  unfolding is_valid_mst_key count_prefix_len
  serialize_entries last no_entries = ok (record { l = none; e = [] })
  serialize_entries last (leaf_node key value rest) =
      serialize_entries key rest >>= with_leaf last key value
  serialize_entries last (mst_node layer sub rest) =
      serialize_entries [] sub >>= λ below. serialize_entries last rest >>= with_subtree below

  -- `serializeNodeData`
  unfoldable pub serialize_node_data : Entries → Result SerialError TreeNodeData
  serialize_node_data entries = serialize_entries [] entries

-- The keys and values in the loop of `deserializeNodeData`
unfoldable pub deserialize_keys : Text → List TreeNodeEntry → Result SerialError (Dict Text)
unfolding is_valid_mst_key
deserialize_keys last [] = ok []
deserialize_keys last (entry ∷ entries) =
    let key = take entry.p last ++ entry.k in
    let rest = deserialize_keys key entries in
    if is_valid_mst_key key
    then elim rest [ ok d ↦ ok ((key, entry.v) ∷ d) | err e ↦ err e ]
    else err (not_valid_key key)
