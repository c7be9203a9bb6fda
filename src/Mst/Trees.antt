-- ===== src/Mst/Trees.antt =====
-- `add`, `update` and `delete` of a node, of src/typescript/lib/hono-factory-atproto-repo/mst/mst.ts,
-- on search trees.
use compute_contract_referen.Base.{
  refl, ◌≡◌, inl, inr, ℕ, true, Bool-cases, if◌then◌else◌, Text, text_eq, lookup, none, some, ok,
}
use compute_contract_referen.Mst.{MstNode, is_valid_mst_key, add_below}
use compute_contract_referen.Mst.Removal.{trim_top}
use compute_contract_referen.Mst.Ordered.{leaves, IsSorted, Alternates}
use compute_contract_referen.Mst.Inserting.{
  Inserts-IsSorted, IsSorted-Inserts, lookup-Inserts, lookup-without,
}
use compute_contract_referen.Mst.Layers.{add_at-NodeAdds, add_below-Adds}
use compute_contract_referen.Mst.Updating.{update-Updates}
use compute_contract_referen.Mst.Merging.{IsLayered}
use compute_contract_referen.Mst.Deleted.{delete_recurse-Removes, trim_top-leaves}
use compute_contract_referen.Mst.Layered.{
  LayeredNode, add_at-IsLayered, add_below-IsLayered, update-IsLayered,
}
use compute_contract_referen.Mst.Cached.{add, update_node, delete_node}

-- A search tree: sorted leaves, subtrees apart from each other and in layers.
pub record IsSearchTree (node : MstNode) : Type 0 where
  pub sorted : IsSorted (leaves node.entries)
  pub alternates : Alternates node.entries
  pub layered : IsLayered node.layer node.entries

-- A node that results from adding the key.
abbrev pub Added : Text → Text → MstNode → MstNode → Type 0
Added key value node node' =
    IsSearchTree node'
    × ((j : Text)
        → lookup j (leaves node'.entries)
          ≡ (if text_eq key j then some value else lookup j (leaves node.entries)))

pub add-Added :
    (key_zeros : ℕ) (key value : Text) (node : MstNode)
    → IsSearchTree node
    → is_valid_mst_key key ≡ true
    → lookup key (leaves node.entries) ≡ none
    → (node' : MstNode) × (add key_zeros key value node ≡ ok node') × Added key value node node'
unfolding add
add-Added key_zeros key value node t valid gone =
    let lower = add_below node.layer key_zeros key value node.entries in
    let (node', e, inserts, alternates) =
      add_at-NodeAdds key value lower node.layer key_zeros node.entries t.sorted t.alternates gone
        (add_below-Adds key value node.layer key_zeros node.entries t.sorted t.alternates gone) in
    let layered =
      add_at-IsLayered key_zeros key value lower node.layer node.entries t.layered
        (λ less. add_below-IsLayered key_zeros key value node.layer node.entries t.layered less) in
    let layered' : LayeredNode node.layer key_zeros node' = rw e at layered in
    rw valid (
      node',
      e,
      (
        record {
          sorted =
              Inserts-IsSorted key value (leaves node.entries) (leaves node'.entries) t.sorted
                inserts;
          alternates = alternates;
          layered = layered'.0;
        },
        lookup-Inserts key value (leaves node.entries) (leaves node'.entries) inserts,
      ),
    )

pub update-Added :
    (key old value : Text) (node : MstNode)
    → IsSearchTree node
    → is_valid_mst_key key ≡ true
    → lookup key (leaves node.entries) ≡ some old
    → (node' : MstNode) × (update_node key value node ≡ ok node') × Added key value node node'
unfolding update_node
update-Added key old value node t valid found =
    let (es, e, u) = update-Updates key old value node.entries t.sorted t.alternates found in
    let others = u.replaces.others in
    let layered : IsLayered node.layer es =
      rw e at (update-IsLayered key value node.layer node.entries t.layered) in
    rw (valid, e)
      (
        record node { entries = es },
        refl,
        (
          record {
            sorted =
                Inserts-IsSorted key value others (leaves es)
                  (IsSorted-Inserts key old others (leaves node.entries) t.sorted
                    u.replaces.previous)
                  u.replaces.current;
            alternates = u.alternates;
            layered = layered;
          },
          λ j. elim (Bool-cases (text_eq key j)) [
            | inl same ↦
                rw (lookup-Inserts key value others (leaves es) u.replaces.current j, same) refl
            | inr other ↦
                rw
                  (
                    lookup-Inserts key value others (leaves es) u.replaces.current j,
                    lookup-Inserts key old others (leaves node.entries) u.replaces.previous j,
                    other,
                  )
                  refl
          ],
        ),
      )

pub delete-Removed :
    (key value : Text) (node : MstNode)
    → IsSearchTree node
    → lookup key (leaves node.entries) ≡ some value
    → (node' : MstNode) × (delete_node key node ≡ ok node')
      × IsSearchTree node'
      × ((j : Text)
          → lookup j (leaves node'.entries)
            ≡ (if text_eq key j then none else lookup j (leaves node.entries)))
unfolding delete_node
delete-Removed key value node t found =
    let (es, e, r) =
      delete_recurse-Removes key value node.layer node.entries t.sorted t.alternates t.layered
        found in
    let (same, alternates, layered) = trim_top-leaves node.layer es r.alternates r.layered in
    rw e (
      record { layer = (trim_top node.layer es).0; entries = (trim_top node.layer es).1 },
      refl,
      record {
        sorted =
            rw same
              (IsSorted-Inserts key value (leaves es) (leaves node.entries) t.sorted r.inserts);
        alternates = alternates;
        layered = layered;
      },
      λ j. rw same (lookup-without key value (leaves es) (leaves node.entries) r.inserts j),
    )
