-- ===== src/Mst.antt =====
-- The Merkle search tree of src/typescript/lib/hono-factory-atproto-repo/mst/mst.ts, in memory. The
-- children of a node are one list of leaves and subtrees; a subtree stands in it with its layer and
-- its children. `sha256` is a parameter where the layer of a key is computed; a node's pointer, which
-- only serialization reads, is left out.
pub mod Ordered
pub mod Removal
pub mod Dividing
pub mod Lookup
pub mod Splitting
pub mod Inserting
pub mod Adding
pub mod Layers
pub mod Updating
pub mod Merging
pub mod Deleting
pub mod Deleted
pub mod Layered
pub mod Cached
pub mod Trees
pub mod Refined
pub mod Histories
pub mod Serialized
mod Tests
use compute_contract_referen.Base.{
  ℕ, zero, suc, ◌+◌, ◌-◌, ◌≤◌, Bool, true, false, ◌&&◌, ◌||◌, Option, none, some, List, [], ◌∷◌,
  ◌++◌, ◌==◌, ltb, leb, if◌then◌else◌, length, Text, text_eq, text_lt, codes, split_on, Dict,
  Result, ok, err,
}

-- `leadingZerosOnHash`, on the bytes of the hash
unfoldable pub leading_zeros : List ℕ → ℕ
leading_zeros [] = 0
leading_zeros (byte ∷ hash) =
    let rest = leading_zeros hash in
    (if ltb byte 64 then 1 else 0)
    + (if ltb byte 16 then 1 else 0)
    + (if ltb byte 4 then 1 else 0)
    + (if byte == 0 then 1 + rest else 0)

-- `/^[a-zA-Z0-9_~\-:./]*$/`
unfoldable pub is_key_char : ℕ → Bool
is_key_char c =
    leb b'a' c && leb c b'z'
    || leb b'A' c && leb c b'Z'
    || leb b'0' c && leb c b'9'
    || c == b'_'
    || c == b'~'
    || c == b'-'
    || c == b':'
    || c == b'.'
    || c == b'/'

unfoldable pub all_key_chars : Text → Bool
unfolding is_key_char
all_key_chars [] = true
all_key_chars (c ∷ key) = is_key_char c && all_key_chars key

two_parts : List Text → Bool
two_parts (collection ∷ rkey ∷ []) = ltb 0 (length collection) && ltb 0 (length rkey)
two_parts _ = false

-- `isValidMstKey`
unfoldable pub is_valid_mst_key : Text → Bool
unfolding split_on two_parts all_key_chars
is_valid_mst_key key =
    ltb 0 (length key)
    && leb (length key) 1024
    && two_parts (split_on b'/' key)
    && all_key_chars key

-- `NodeEntry[]`: a leaf with its key and value, or a subtree with its layer and entries, and the rest.
pub data Entries : Type 0 where
  no_entries : Entries
  leaf_node : Text → Text → Entries → Entries
  mst_node : ℕ → Entries → Entries → Entries

pub record MstNode : Type 0 where
  pub layer : ℕ
  pub entries : Entries

pub data MstError : Type 0 where
  invalid_key : Text → MstError
  already_present : Text → MstError
  not_found : Text → MstError
  different_layers : MstError

-- The entry at `findGtOrEqualLeafIndex(key)` is the first of these entries, or there is none.
abbrev pub stops_at : Text → Entries → Bool
stops_at key no_entries = true
stops_at key (leaf_node k v rest) = if text_lt k key then false else true
stops_at key (mst_node l sub rest) = false

-- That entry is a leaf with the key.
abbrev pub begins_with : Text → Entries → Bool
begins_with key no_entries = false
begins_with key (leaf_node k v rest) = text_eq k key
begins_with key (mst_node l sub rest) = false

-- The key is looked for in the subtree before these entries.
abbrev pub lies_before : Text → Entries → Bool
lies_before key rest =
    if stops_at key rest then (if begins_with key rest then false else true) else false

-- `get`
unfoldable pub get : Text → Entries → Option Text
unfolding text_lt text_eq
get key no_entries = none
get key (leaf_node k v rest) =
    let later = get key rest in
    if text_lt k key then later else if text_eq k key then some v else none
get key (mst_node l sub rest) =
    let below = get key sub in
    let later = get key rest in if lies_before key rest then below else later

-- A subtree that is `null` where it has no entries, put before the rest.
abbrev pub prepend : ℕ → Entries → Entries → Entries
prepend l no_entries rest = rest
prepend l (leaf_node k v es) rest = mst_node l (leaf_node k v es) rest
prepend l (mst_node m sub es) rest = mst_node l (mst_node m sub es) rest

-- `splitAround`: the entries of the two nodes
unfoldable pub split_around : Text → Entries → Entries × Entries
unfolding text_lt
split_around key no_entries = (no_entries, no_entries)
split_around key (leaf_node k v rest) =
    let (left, right) = split_around key rest in
    if text_lt k key then (leaf_node k v left, right) else (no_entries, leaf_node k v rest)
split_around key (mst_node l sub rest) =
    let (inner_left, inner_right) = split_around key sub in
    let (left, right) = split_around key rest in
    if stops_at key rest
    then (prepend l inner_left no_entries, prepend l inner_right rest)
    else (mst_node l sub left, right)

abbrev pub map_ok {ℓ κ} :
    {A : Type ℓ} {B : Type κ} → (A → B) → Result MstError A → Result MstError B
map_ok f (ok a) = ok (f a)
map_ok f (err e) = err e

-- `replaceWithSplit`, at the subtree
abbrev pub replace_with_split : ℕ → Entries × Entries → Text → Text → Entries → Entries
replace_with_split l (left, right) key value rest =
    prepend l left (leaf_node key value (prepend l right rest))

-- `add` for a key of the node's own layer
unfoldable pub add_here : Text → Text → Entries → Result MstError Entries
unfolding text_lt text_eq split_around
add_here key value no_entries = ok (leaf_node key value no_entries)
add_here key value (leaf_node k v rest) =
    let later = map_ok (leaf_node k v) (add_here key value rest) in
    if text_lt k key
    then later
    else if text_eq k key
    then err (already_present key)
    else ok (leaf_node key value (leaf_node k v rest))
add_here key value (mst_node l sub rest) =
    let later = map_ok (mst_node l sub) (add_here key value rest) in
    if stops_at key rest
    then (if begins_with key rest
        then err (already_present key)
        else ok (replace_with_split l (split_around key sub) key value rest))
    else later

-- `createChild`, and the additions to it: the entries of a node `n` layers above the key's.
unfoldable pub new_child : ℕ → ℕ → Text → Text → Entries
new_child key_zeros zero key value = leaf_node key value no_entries
new_child key_zeros (suc n) key value =
    mst_node (key_zeros + n) (new_child key_zeros n key value) no_entries

-- `createParent`, `n` times
unfoldable pub parents : ℕ → ℕ → Entries → Entries
parents zero layer es = es
parents (suc n) layer es = parents n (layer + 1) (mst_node layer es no_entries)

-- The node with `n` parents, put before the rest, if it is not `null`.
abbrev pub raise : ℕ → ℕ → Entries → Entries → Entries
raise n layer no_entries rest = rest
raise n layer (leaf_node k v es) rest =
    mst_node (layer + n) (parents n layer (leaf_node k v es)) rest
raise n layer (mst_node m sub es) rest =
    mst_node (layer + n) (parents n layer (mst_node m sub es)) rest

-- `add` for a key of a higher layer
unfoldable pub add_above : ℕ → ℕ → Text → Text → Entries → Entries
unfolding split_around parents
add_above layer key_zeros key value es =
    let (left, right) = split_around key es in
    let n = (key_zeros - layer) - 1 in
    raise n layer left (leaf_node key value (raise n layer right no_entries))

-- The three cases of `add`, given what the one for a lower layer gives.
abbrev pub add_at :
    Result MstError Entries → ℕ → ℕ → Text → Text → Entries → Result MstError MstNode
add_at lower layer key_zeros key value es =
    if key_zeros == layer
    then map_ok (λ e. record { layer = layer; entries = e }) (add_here key value es)
    else if ltb key_zeros layer
    then map_ok (λ e. record { layer = layer; entries = e }) lower
    else ok (record { layer = key_zeros; entries = add_above layer key_zeros key value es })

-- `add` for a key of a lower layer
unfoldable pub add_below : ℕ → ℕ → Text → Text → Entries → Result MstError Entries
unfolding text_lt new_child add_here add_above
add_below layer key_zeros key value no_entries =
    ok (mst_node (layer - 1) (new_child key_zeros ((layer - 1) - key_zeros) key value) no_entries)
add_below layer key_zeros key value (leaf_node k v rest) =
    let later = map_ok (leaf_node k v) (add_below layer key_zeros key value rest) in
    if text_lt k key
    then later
    else ok (
        mst_node (layer - 1) (new_child key_zeros ((layer - 1) - key_zeros) key value)
          (leaf_node k v rest))
add_below layer key_zeros key value (mst_node l sub rest) =
    let later = map_ok (mst_node l sub) (add_below layer key_zeros key value rest) in
    let inner = add_at (add_below l key_zeros key value sub) l key_zeros key value sub in
    if stops_at key rest
    then map_ok (λ (node : MstNode). mst_node node.layer node.entries rest) inner
    else later
