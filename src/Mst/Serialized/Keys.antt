-- ===== src/Mst/Serialized/Keys.antt =====
-- The prefixes that serialization leaves out, and how deserialization fills them in.
use compute_contract_referen.Base.{
  arith, refl, ap, sym, subst, ◌≡◌, inl, inr, true, Bool-cases, Option-cases, Option, List, [], ◌∷◌,
  ◌++◌, ◌==◌, take, drop, Text, Dict, Result, ok, err, Result-cases,
}
use compute_contract_referen.Mst.{Entries, no_entries, leaf_node, mst_node, is_valid_mst_key}
use compute_contract_referen.Mst.Serialized.{
  TreeNodeEntry, TreeNodeData, SerialError, count_prefix_len, with_leaf, with_subtree,
  serialize_entries, serialize_node_data, deserialize_keys,
}

-- The leaves of the node itself, not those of its subtrees.
abbrev pub own_leaves : Entries → Dict Text
own_leaves no_entries = []
own_leaves (leaf_node k v rest) = (k, v) ∷ own_leaves rest
own_leaves (mst_node layer sub rest) = own_leaves rest

prefix_restored : (a b : Text) → take (count_prefix_len a b) a ++ drop (count_prefix_len a b) b ≡ b
unfolding count_prefix_len
prefix_restored [] b = refl
prefix_restored (c ∷ a) [] = refl
prefix_restored (c ∷ a) (d ∷ b) = elim (Bool-cases (c == d)) [
  | inl same ↦ let e : c ≡ d = ground arith in rw same (rw (prefix_restored a b, e) refl)
  | inr other ↦ rw other refl
]

ok_injective :
    (d a b : TreeNodeData) → ◌≡◌ {A = Result SerialError TreeNodeData} (ok a) (ok b) → a ≡ b
ok_injective d a b h =
    ap (λ (r : Result SerialError TreeNodeData). elim r [ ok x ↦ x | err _ ↦ d ]) h

keys_cons :
    (last : Text) (entry : TreeNodeEntry) (entries : List TreeNodeEntry) (d : Dict Text)
    → is_valid_mst_key (take entry.p last ++ entry.k) ≡ true
    → deserialize_keys (take entry.p last ++ entry.k) entries ≡ ok d
    → deserialize_keys last (entry ∷ entries) ≡ ok ((take entry.p last ++ entry.k, entry.v) ∷ d)
unfolding deserialize_keys
keys_cons last entry entries d valid h = rw (valid, h) refl

keys_behind :
    (last key value : Text) (t : Option Text) (entries : List TreeNodeEntry) (d : Dict Text)
    → is_valid_mst_key key ≡ true
    → deserialize_keys key entries ≡ ok d
    → deserialize_keys last (
        record {
          p = count_prefix_len last key;
          k = drop (count_prefix_len last key) key;
          v = value;
          t = t;
        }
        ∷ entries)
      ≡ ok ((key, value) ∷ d)
keys_behind last key value t entries d valid h =
    let n = count_prefix_len last key in
    let entry : TreeNodeEntry = record { p = n; k = drop n key; v = value; t = t } in
    let whole : key ≡ take n last ++ drop n key = sym (prefix_restored last key) in
    subst (λ (j : Text). deserialize_keys last (entry ∷ entries) ≡ ok ((j, value) ∷ d)) (sym whole)
      (keys_cons last entry entries d (subst (λ (j : Text). is_valid_mst_key j ≡ true) whole valid)
        (subst (λ (j : Text). deserialize_keys j entries ≡ ok d) whole h))

module _ (cid_for_node_data : TreeNodeData → Text) where
  keys_of_leaf :
      (last key value : Text) (r node_data : TreeNodeData) (d : Dict Text)
      → with_leaf cid_for_node_data last key value r ≡ ok node_data
      → deserialize_keys key r.e ≡ ok d
      → deserialize_keys last node_data.e ≡ ok ((key, value) ∷ d)
  keys_of_leaf last key value r node_data d h k = elim (Bool-cases (is_valid_mst_key key)) [
    | inr wrong ↦ absurd (ground arith)
    | inl valid ↦
        subst (λ (n : TreeNodeData). deserialize_keys last n.e ≡ ok ((key, value) ∷ d))
          (ok_injective r _ node_data (rw valid at h))
          (keys_behind last key value r.l r.e d valid k)
  ]

  keys_of_subtree :
      (last : Text) (below r node_data : TreeNodeData) (d : Dict Text)
      → with_subtree cid_for_node_data below r ≡ ok node_data
      → deserialize_keys last r.e ≡ ok d
      → deserialize_keys last node_data.e ≡ ok d
  keys_of_subtree last below r node_data d h k = elim (Option-cases r.l) [
    | inr (next, e) ↦ absurd (ground arith)
    | inl nothing ↦
        subst (λ (n : TreeNodeData). deserialize_keys last n.e ≡ ok d)
          (ok_injective r _ node_data (rw nothing at h)) k
  ]

  keys_from :
      (last : Text) (es : Entries) (node_data : TreeNodeData)
      → serialize_entries cid_for_node_data last es ≡ ok node_data
      → deserialize_keys last node_data.e ≡ ok (own_leaves es)
  unfolding serialize_entries
  keys_from last no_entries node_data h =
      subst (λ (n : TreeNodeData). deserialize_keys last n.e ≡ ok [])
        (ok_injective node_data _ node_data h) (unfold deserialize_keys in refl)
  keys_from last (leaf_node key value rest) node_data h =
      elim (Result-cases (serialize_entries cid_for_node_data key rest)) [
        | inl (failed, e) ↦ absurd (ground arith)
        | inr (r, e) ↦
            keys_of_leaf last key value r node_data (own_leaves rest) (rw e at h)
              (keys_from key rest r e)
      ]
  keys_from last (mst_node layer sub rest) node_data h =
      elim (Result-cases (serialize_entries cid_for_node_data [] sub)) [
        | inl (failed, e) ↦ absurd (ground arith)
        | inr (below, e) ↦ elim (Result-cases (serialize_entries cid_for_node_data last rest)) [
          | inl (failed, f) ↦ absurd (ground arith)
          | inr (r, f) ↦
              keys_of_subtree last below r node_data (own_leaves rest) (rw (e, f) at h)
                (keys_from last rest r f)
        ]
      ]

  -- Whatever is serialized, the keys that deserialization puts together from the shared prefixes, with
  -- their values, are the node's own leaves.
  pub deserialize_keys-serialize_node_data :
      (es : Entries) (node_data : TreeNodeData)
      → serialize_node_data cid_for_node_data es ≡ ok node_data
      → deserialize_keys [] node_data.e ≡ ok (own_leaves es)
  unfolding serialize_node_data
  deserialize_keys-serialize_node_data es node_data h = keys_from [] es node_data h
