-- ===== src/Car/Subtrees.antt =====
-- What `collectAllBlocks` follows from a node of the tree, which `encodeNodeData` of
-- src/typescript/lib/hono-factory-atproto-repo/mst/mst.ts has put into a block. `raw` gives the bytes of a
-- CID.
use compute_contract_referen.Base.{
  refl, ap, ◌≡◌, ℕ, Option, none, some, List, [], ◌∷◌, ◌++◌, Text, codes, text_eq,
}
use compute_contract_referen.Cbor.Values.{
  get_member, Value, unsigned, byte_string, array, object, cid_link, nothing, Elements, no_elements,
  element, member, no_members,
}
use compute_contract_referen.Mst.Serialized.{TreeNodeEntry, TreeNodeData}
use compute_contract_referen.Car.{cid_from_raw_bytes}
use compute_contract_referen.Car.Collecting.{
  Child, child, value_link, entry_link, entry_links, array_links, member_links, value_children,
}

module _ (raw : Text → List ℕ) where
  -- A CID link, or null
  unfoldable pub link_value : Option Text → Value
  link_value none = nothing
  link_value (some cid) = cid_link (raw cid)

  unfoldable pub entry_values : List TreeNodeEntry → Elements
  unfolding link_value
  entry_values [] = no_elements
  entry_values (entry ∷ entries) =
      element
        (object (
          member (codes "p") (unsigned entry.p) (
            member (codes "k") (byte_string entry.k) (
              member (codes "v") (cid_link (raw entry.v))
                (member (codes "t") (link_value entry.t) no_members)))))
        (entry_values entries)

  -- The object of `encodeNodeData`
  unfoldable pub node_value : TreeNodeData → Value
  unfolding link_value entry_values
  node_value node = object (
      member (codes "l") (link_value node.l)
        (member (codes "e") (array (entry_values node.e)) no_members))

  -- The left subtree of a node and the values of its entries.
  abbrev pub left_child : Option Text → List Child
  left_child none = []
  left_child (some cid) = child (cid_from_raw_bytes (raw cid)) ∷ []

  abbrev pub value_cids : List TreeNodeEntry → List Child
  value_cids [] = []
  value_cids (entry ∷ entries) = child (cid_from_raw_bytes (raw entry.v)) ∷ value_cids entries

  entry_links_lem :
      (entries : List TreeNodeEntry) → entry_links (entry_values entries) ≡ value_cids entries
  unfolding entry_links entry_link entry_values value_link get_member text_eq
  entry_links_lem [] = refl
  entry_links_lem (entry ∷ entries) =
      ap (λ l. child (cid_from_raw_bytes (raw entry.v)) ∷ l) (entry_links_lem entries)

  left_link : (l : Option Text) → value_link (link_value l) ≡ left_child l
  unfolding value_link link_value
  left_link none = refl
  left_link (some cid) = refl

  -- From the block of a node, the export follows the left subtree and the values of the entries, in their
  -- order, and no subtree of an entry.
  pub value_children-node_value :
      (node : TreeNodeData)
      → value_children (node_value node) ≡ left_child node.l ++ value_cids node.e
  unfolding value_children node_value get_member text_eq array_links member_links
  value_children-node_value node = rw (← left_link node.l, ← entry_links_lem node.e) refl
