-- ===== src/Mst/Layers.antt =====
-- Adding a key of another layer than the node's: in a subtree, or under a new root.
use compute_contract_referen.Base.{
  arith, refl, ap, ◌≡◌, ◌∙◌, inl, inr, ℕ, zero, suc, ◌+◌, ◌-◌, ◌==◌, ltb, true, Bool-cases, [], ◌∷◌,
  ◌++◌, Text, text_lt, lookup, none, append-nil, Result, ok,
}
use compute_contract_referen.Mst.{
  Entries, no_entries, leaf_node, mst_node, MstNode, MstError, stops_at, split_around, map_ok,
  new_child, parents, raise, add_above, add_at, add_below,
}
use compute_contract_referen.Mst.Ordered.{
  text_lt_total, leaves, IsSorted, Above, IsLeafFirst, Alternates,
}
use compute_contract_referen.Mst.Dividing.{IsSorted-left, IsSorted-right, Above-stop, Above-trans}
use compute_contract_referen.Mst.Splitting.{
  absent_left, absent_right, absent_begin, Splits, split_around-Splits,
}
use compute_contract_referen.Mst.Inserting.{Inserts, Inserts-ahead, Inserts-between}
use compute_contract_referen.Mst.Adding.{AddsOk, adds_behind_leaf, adds_behind_tree, add_here-Adds}

new_child-leaves :
    (key_zeros n : ℕ) (key value : Text)
    → leaves (new_child key_zeros n key value) ≡ (key, value) ∷ []
unfolding new_child leaves
new_child-leaves key_zeros zero key value = refl
new_child-leaves key_zeros (suc n) key value =
    append-nil (leaves (new_child key_zeros n key value)) ∙ new_child-leaves key_zeros n key value

new_child-Alternates :
    (key_zeros n : ℕ) (key value : Text) → Alternates (new_child key_zeros n key value)
unfolding new_child
new_child-Alternates key_zeros zero key value = tt
new_child-Alternates key_zeros (suc n) key value =
    (new_child-Alternates key_zeros n key value, tt, tt)

parents-leaves : (n layer : ℕ) (es : Entries) → leaves (parents n layer es) ≡ leaves es
unfolding parents leaves
parents-leaves zero layer es = refl
parents-leaves (suc n) layer es =
    parents-leaves n (layer + 1) (mst_node layer es no_entries) ∙ append-nil (leaves es)

parents-Alternates : (n layer : ℕ) (es : Entries) → Alternates es → Alternates (parents n layer es)
unfolding parents
parents-Alternates zero layer es a = a
parents-Alternates (suc n) layer es a =
    parents-Alternates n (layer + 1) (mst_node layer es no_entries) (a, tt, tt)

raise-leaves :
    (n layer : ℕ) (es rest : Entries) → leaves (raise n layer es rest) ≡ leaves es ++ leaves rest
unfolding leaves
raise-leaves n layer no_entries rest = refl
raise-leaves n layer (leaf_node k v es) rest =
    ap (λ d. d ++ leaves rest) (parents-leaves n layer (leaf_node k v es))
raise-leaves n layer (mst_node m sub es) rest =
    ap (λ d. d ++ leaves rest) (parents-leaves n layer (mst_node m sub es))

raise-Alternates :
    (n layer : ℕ) (es rest : Entries)
    → Alternates es
    → IsLeafFirst rest
    → Alternates rest
    → Alternates (raise n layer es rest)
raise-Alternates n layer no_entries rest a f b = b
raise-Alternates n layer (leaf_node k v es) rest a f b =
    (parents-Alternates n layer (leaf_node k v es) a, f, b)
raise-Alternates n layer (mst_node m sub es) rest a f b =
    (parents-Alternates n layer (mst_node m sub es) a, f, b)

-- The result of adding to a node.
abbrev pub NodeAdds : Text → Text → Entries → Result MstError MstNode → Type 0
NodeAdds key value es r =
    (node : MstNode) × (r ≡ ok node)
    × Inserts key value (leaves es) (leaves node.entries)
    × Alternates node.entries

module _ (key value : Text) where
  raised :
      (n layer : ℕ) (es left right : Entries)
      → Splits key es left right
      → Inserts key value
          (leaves es)
          (leaves (raise n layer left (leaf_node key value (raise n layer right no_entries))))
        × Alternates (raise n layer left (leaf_node key value (raise n layer right no_entries)))
  unfolding leaves
  raised n layer es left right s = (
    rw
        (
          raise-leaves n layer left (leaf_node key value (raise n layer right no_entries)),
          raise-leaves n layer right no_entries,
          append-nil (leaves right),
          ← s.parts,
        )
        (Inserts-between key value (leaves left) (leaves right) s.below s.above),
    raise-Alternates n layer left (leaf_node key value (raise n layer right no_entries))
        s.left_alternates tt (raise-Alternates n layer right no_entries s.right_alternates tt tt),
  )

  -- Whichever layer the key has: given that the addition to a lower layer does, adding does.
  pub add_at-NodeAdds :
      (lower : Result MstError Entries) (layer key_zeros : ℕ) (es : Entries)
      → IsSorted (leaves es)
      → Alternates es
      → lookup key (leaves es) ≡ none
      → AddsOk key value es lower
      → NodeAdds key value es (add_at lower layer key_zeros key value es)
  unfolding add_above
  add_at-NodeAdds lower layer key_zeros es s a h (es', e, adds) =
      elim (Bool-cases (key_zeros == layer)) [
        | inl here ↦
            let (there, same, added) = add_here-Adds key value es s a h in
            rw (here, same)
              (record { layer = layer; entries = there }, refl, added.inserts, added.alternates)
        | inr elsewhere ↦ elim (Bool-cases (ltb key_zeros layer)) [
          | inl below ↦
              rw (elsewhere, below, e)
                (record { layer = layer; entries = es' }, refl, adds.inserts, adds.alternates)
          | inr above ↦
              let (inserts, alternates) =
                raised ((key_zeros - layer) - 1) layer es (split_around key es).0
                  (split_around key es).1 (split_around-Splits key es s a h) in
              rw (elsewhere, above)
                (
                  record { layer = key_zeros; entries = add_above layer key_zeros key value es },
                  refl,
                  inserts,
                  alternates,
                )
        ]
      ]

  child_before :
      (m layer n key_zeros : ℕ) (rest : Entries)
      → Above key (leaves rest)
      → IsLeafFirst rest
      → Alternates rest
      → Inserts key value (leaves rest) (leaves (mst_node m (new_child key_zeros n key value) rest))
        × Alternates (mst_node m (new_child key_zeros n key value) rest)
  unfolding leaves
  child_before m layer n key_zeros rest above f b = (
    rw (new_child-leaves key_zeros n key value)
        (Inserts-between key value [] (leaves rest) tt above),
    (new_child-Alternates key_zeros n key value, f, b),
  )

  adds_inside :
      (l : ℕ) (sub rest : Entries) (inner : Result MstError MstNode)
      → Above key (leaves rest)
      → IsLeafFirst rest
      → Alternates rest
      → NodeAdds key value sub inner
      → AddsOk key value
          (mst_node l sub rest)
          (map_ok (λ (node : MstNode). mst_node node.layer node.entries rest) inner)
  unfolding leaves
  adds_inside l sub rest inner above f b (node, e, inserts, a) = (
    mst_node node.layer node.entries rest,
    rw e refl,
    record {
      inserts =
          Inserts-ahead key value (leaves sub) (leaves node.entries) (leaves rest) above inserts;
      alternates = (a, f, b);
      first = λ _ nothing. elim nothing [ ];
    },
  )

  pub add_below-Adds :
      (layer key_zeros : ℕ) (es : Entries)
      → IsSorted (leaves es)
      → Alternates es
      → lookup key (leaves es) ≡ none
      → AddsOk key value es (add_below layer key_zeros key value es)
  unfolding add_below leaves lookup
  add_below-Adds layer key_zeros no_entries s a h =
      let n = (layer - 1) - key_zeros in
      let (inserts, alternates) = child_before (layer - 1) layer n key_zeros no_entries tt tt tt in
      (
        mst_node (layer - 1) (new_child key_zeros n key value) no_entries,
        refl,
        record { inserts = inserts; alternates = alternates; first = λ no_stop _. absurd cc },
      )
  add_below-Adds layer key_zeros (leaf_node k v rest) (above, s) a h =
      elim (Bool-cases (text_lt k key)) [
        | inl less ↦ rw less (
            adds_behind_leaf key value k v rest (add_below layer key_zeros key value rest) less
              (add_below-Adds layer key_zeros rest s a (ground arith)))
        | inr stop ↦
            let lt : text_lt key k ≡ true = text_lt_total k key stop (ground arith) in
            let n = (layer - 1) - key_zeros in
            let (inserts, alternates) =
              child_before (layer - 1) layer n key_zeros (leaf_node k v rest)
                (lt, Above-trans key k (leaves rest) lt above) tt a in
            rw stop (
              mst_node (layer - 1) (new_child key_zeros n key value) (leaf_node k v rest),
              refl,
              record {
                inserts = inserts;
                alternates = alternates;
                first = λ no_stop _. absurd (ground arith);
              },
            )
      ]
  add_below-Adds layer key_zeros (mst_node l sub rest) s (a, f, b) h =
      let left = IsSorted-left (leaves sub) (leaves rest) s in
      let right = IsSorted-right (leaves sub) (leaves rest) s in
      let gone = absent_right key (leaves sub) (leaves rest) h in
      let gone_below = absent_left key (leaves sub) (leaves rest) h in
      elim (Bool-cases (stops_at key rest)) [
        | inl stops ↦ rw stops (
            adds_inside l sub rest
              (add_at (add_below l key_zeros key value sub) l key_zeros key value sub)
              (Above-stop key rest right stops (absent_begin key rest gone)) f b
              (add_at-NodeAdds (add_below l key_zeros key value sub) l key_zeros sub left a
                gone_below (add_below-Adds l key_zeros sub left a gone_below)))
        | inr goes ↦ rw goes (
            adds_behind_tree key value l sub rest (add_below layer key_zeros key value rest) s a f
              goes (add_below-Adds layer key_zeros rest right b gone))
      ]
