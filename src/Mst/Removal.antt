-- ===== src/Mst/Removal.antt =====
-- `update`, `delete`, `appendMerge` and `trimTop` of src/typescript/lib/hono-factory-atproto-repo/mst/mst.ts.
use compute_contract_referen.Base.{ℕ, ◌==◌, if◌then◌else◌, Text, text_eq, text_lt, Result, ok, err}
use compute_contract_referen.Mst.{
  Entries, no_entries, leaf_node, mst_node, MstError, not_found, different_layers, stops_at,
  begins_with, lies_before, prepend, map_ok,
}

-- `update`
unfoldable pub update : Text → Text → Entries → Result MstError Entries
unfolding text_lt text_eq
update key value no_entries = err (not_found key)
update key value (leaf_node k v rest) =
    let later = map_ok (leaf_node k v) (update key value rest) in
    if text_lt k key
    then later
    else if text_eq k key
    then ok (leaf_node key value rest)
    else err (not_found key)
update key value (mst_node l sub rest) =
    let below = map_ok (λ s. mst_node l s rest) (update key value sub) in
    let later = map_ok (mst_node l sub) (update key value rest) in
    if lies_before key rest then below else later

-- `appendMerge`, where the layers are the same
unfoldable pub append_merge : Entries → Entries → Result MstError Entries
append_merge no_entries right = ok right
append_merge (leaf_node k v rest) right = map_ok (leaf_node k v) (append_merge rest right)
append_merge (mst_node l sub no_entries) (mst_node m first rest) =
    let merged = append_merge sub first in
    if l == m then map_ok (λ s. mst_node l s rest) merged else err different_layers
append_merge (mst_node l sub no_entries) no_entries = ok (mst_node l sub no_entries)
append_merge (mst_node l sub no_entries) (leaf_node k v rest) =
    ok (mst_node l sub (leaf_node k v rest))
append_merge (mst_node l sub (leaf_node k v rest)) right =
    map_ok (mst_node l sub) (append_merge (leaf_node k v rest) right)
append_merge (mst_node l sub (mst_node m inner rest)) right =
    map_ok (mst_node l sub) (append_merge (mst_node m inner rest) right)

-- What is left of a subtree and the entries behind it when the leaf between them is removed.
abbrev pub close_gap : ℕ → Entries → Entries → Result MstError Entries
close_gap l sub no_entries = ok (mst_node l sub no_entries)
close_gap l sub (leaf_node k v rest) = ok (mst_node l sub (leaf_node k v rest))
close_gap l sub (mst_node m next rest) =
    if l == m then map_ok (λ s. mst_node l s rest) (append_merge sub next) else err different_layers

abbrev pub remove_next : ℕ → Entries → Entries → Result MstError Entries
remove_next l sub no_entries = ok (mst_node l sub no_entries)
remove_next l sub (leaf_node k v rest) = close_gap l sub rest
remove_next l sub (mst_node m next rest) = ok (mst_node l sub (mst_node m next rest))

-- `deleteRecurse`
unfoldable pub delete_recurse : Text → Entries → Result MstError Entries
unfolding text_lt text_eq append_merge
delete_recurse key no_entries = err (not_found key)
delete_recurse key (leaf_node k v rest) =
    let later = map_ok (leaf_node k v) (delete_recurse key rest) in
    if text_lt k key then later else if text_eq k key then ok rest else err (not_found key)
delete_recurse key (mst_node l sub rest) =
    let below = map_ok (λ s. prepend l s rest) (delete_recurse key sub) in
    let later = map_ok (mst_node l sub) (delete_recurse key rest) in
    if stops_at key rest
    then (if begins_with key rest then remove_next l sub rest else below)
    else later

-- `trimTop`
unfoldable pub trim_top : ℕ → Entries → ℕ × Entries
trim_top layer no_entries = (layer, no_entries)
trim_top layer (leaf_node k v rest) = (layer, leaf_node k v rest)
trim_top layer (mst_node l sub no_entries) = trim_top l sub
trim_top layer (mst_node l sub (leaf_node k v rest)) = (layer, mst_node l sub (leaf_node k v rest))
trim_top layer (mst_node l sub (mst_node m next rest)) =
    (layer, mst_node l sub (mst_node m next rest))
