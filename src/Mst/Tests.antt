-- ===== src/Mst/Tests.antt =====
-- Concrete trees: keys of layers 0 and 2, by a stand-in for SHA-256 that reads the layer off the key's
-- last character.
use compute_contract_referen.Base.{
  refl, ◌≡◌, ◌==◌, List, [], ◌∷◌, if◌then◌else◌, Text, codes, lookup, none, some, ok,
}
use compute_contract_referen.Mst.{Entries, no_entries, leaf_node, mst_node, is_valid_mst_key}
use compute_contract_referen.Mst.Removal.{append_merge}
use compute_contract_referen.Mst.Merging.{MergesOk, append_merge-Merges}
use compute_contract_referen.Mst.Cached.{Mst, mst_get, mst_set, mst_delete}
use compute_contract_referen.Mst.Histories.{
  Change, setting, deleting, new_mst, apply_changes, apply_to_map, history_refines_map,
}
use compute_contract_referen.Mst.Serialized.{
  TreeNodeData, serialize_entries, serialize_node_data, deserialize_keys,
}
use compute_contract_referen.Mst.Serialized.Keys.{own_leaves, deserialize_keys-serialize_node_data}

ends_high : Text → Text
ends_high [] = []
ends_high (c ∷ []) = if c == b'h' then 8 ∷ [] else 64 ∷ []
ends_high (c ∷ d ∷ key) = ends_high (d ∷ key)

abbrev low : Text
low = codes "c/al"

abbrev high : Text
high = codes "c/bh"

abbrev two : Entries
two =
    mst_node 1 (mst_node 0 (leaf_node low (codes "v") no_entries) no_entries)
      (leaf_node high (codes "w") no_entries)

append_merge-Merges_example :
    MergesOk 1
      (mst_node 0 (leaf_node low [] no_entries) no_entries)
      (mst_node 0 (leaf_node high [] no_entries) no_entries)
      (append_merge
        (mst_node 0 (leaf_node low [] no_entries) no_entries)
        (mst_node 0 (leaf_node high [] no_entries) no_entries))
append_merge-Merges_example =
    append_merge-Merges 1 (mst_node 0 (leaf_node low [] no_entries) no_entries)
      (mst_node 0 (leaf_node high [] no_entries) no_entries) (tt, tt, tt) (tt, tt, tt)
      (refl, tt, tt) (refl, tt, tt)

abbrev changes : List Change
changes = setting low (codes "v") ∷ setting high (codes "w") ∷ deleting low ∷ []

history_refines_map_example :
    (s : Mst) × (apply_changes ends_high changes new_mst ≡ ok s)
    × ((j : Text) → mst_get j s ≡ lookup j (apply_to_map changes []))
unfolding is_valid_mst_key
history_refines_map_example = history_refines_map ends_high changes (refl, (refl, (tt, tt)))

-- The second key's layer is above the first one's: the tree has a new root.
two_made :
    apply_changes ends_high (setting low (codes "v") ∷ setting high (codes "w") ∷ []) new_mst
    ≡ ok (record {
      tree = some (record { layer = 2; entries = two });
      all = (low, codes "v") ∷ (high, codes "w") ∷ [];
    })
unfolding apply_changes mst_set ends_high
two_made = refl

-- A tree that has lost its last key keeps its layer, so that a lower key is put below empty nodes: the
-- same entries make another tree than when the key is set first.
lower_after_high :
    apply_changes ends_high
      (setting high (codes "w") ∷ deleting high ∷ setting low (codes "v") ∷ [])
      new_mst
    ≡ ok (record {
      tree = some (record {
        layer = 2;
        entries =
            mst_node 1 (mst_node 0 (leaf_node low (codes "v") no_entries) no_entries) no_entries;
      });
      all = (low, codes "v") ∷ [];
    })
unfolding apply_changes mst_set mst_delete ends_high
lower_after_high = refl

lower_alone :
    apply_changes ends_high (setting low (codes "v") ∷ []) new_mst
    ≡ ok (record {
      tree = some (record { layer = 0; entries = leaf_node low (codes "v") no_entries });
      all = (low, codes "v") ∷ [];
    })
unfolding apply_changes mst_set ends_high
lower_alone = refl

abbrev same_cid : TreeNodeData → Text
same_cid node_data = codes "cid"

-- Two leaves that share "c/", with a subtree before the first.
abbrev compressed : TreeNodeData
compressed = record {
  l = some (codes "cid");
  e =
      record { p = 0; k = codes "c/bh"; v = codes "w"; t = none }
      ∷ record { p = 2; k = codes "d"; v = codes "x"; t = none }
      ∷ [];
}

abbrev three : Entries
three =
    mst_node 0 (leaf_node low (codes "v") no_entries)
      (leaf_node high (codes "w") (leaf_node (codes "c/d") (codes "x") no_entries))

deserialize_keys-serialize_node_data_example :
    deserialize_keys [] compressed.e ≡ ok (own_leaves three)
unfolding serialize_node_data serialize_entries
deserialize_keys-serialize_node_data_example =
    deserialize_keys-serialize_node_data same_cid three compressed refl
