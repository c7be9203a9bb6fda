-- ===== src/Mst/Deleted.antt =====
-- `deleteRecurse` and `trimTop` on a well-formed tree.
use compute_contract_referen.Base.{
  arith, refl, sym, subst, ◌≡◌, ◌∙◌, inl, inr, ℕ, ◌+◌, true, Bool-cases, [], ◌∷◌, ◌++◌, Text,
  text_eq, text_eq_iff, text_lt, lookup, some, append-nil, ok,
}
use compute_contract_referen.Mst.{Entries, no_entries, leaf_node, mst_node, stops_at, begins_with}
use compute_contract_referen.Mst.Removal.{close_gap, remove_next, delete_recurse, trim_top}
use compute_contract_referen.Mst.Ordered.{
  text_lt_irrefl, text_lt_total, leaves, IsSorted, Below, Above, Alternates,
}
use compute_contract_referen.Mst.Dividing.{
  IsSorted-left, IsSorted-right, lookup-Above, lookup-Below, lookup-append_left,
  lookup-append_right, Above-stop, Below-go, Below-begin, Above-trans,
}
use compute_contract_referen.Mst.Inserting.{Inserts-between}
use compute_contract_referen.Mst.Merging.{IsLayered}
use compute_contract_referen.Mst.Deleting.{
  RemovesOk, removes_behind_leaf, removes_behind_tree, removes_inside, removes_next,
}

begins_stop : (key : Text) (rest : Entries) → begins_with key rest ≡ true → stops_at key rest ≡ true
begins_stop key no_entries h = cc
begins_stop key (leaf_node k v rest) h = ground (arith, text_eq_iff k key, text_lt_irrefl key)
begins_stop key (mst_node l sub rest) h = cc

module _ (key value : Text) where
  removes_leaf :
      (layer : ℕ) (v : Text) (rest : Entries)
      → Above key (leaves rest)
      → Alternates rest
      → IsLayered layer rest
      → v ≡ value
      → RemovesOk layer key value (leaf_node key v rest) (ok rest)
  unfolding leaves
  removes_leaf layer v rest above a h same = (
    rest,
    refl,
    record {
      inserts = rw same (Inserts-between key value [] (leaves rest) tt above);
      alternates = a;
      layered = h;
      first = λ goes _. absurd (ground (arith, text_lt_irrefl key));
    },
  )

  removes_begin :
      (layer l : ℕ) (sub : Entries) (v : Text) (more : Entries)
      → l + 1 ≡ layer
      → IsLayered l sub
      → IsLayered layer more
      → Alternates sub
      → Alternates more
      → Below key (leaves sub)
      → Above key (leaves more)
      → v ≡ value
      → RemovesOk layer key value
          (mst_node l sub (leaf_node key v more))
          (remove_next l sub (leaf_node key v more))
  removes_begin layer l sub v more up h k a b below above same =
      subst
        (λ (w : Text).
          RemovesOk layer key value (mst_node l sub (leaf_node key w more)) (close_gap l sub more))
        (sym same) (removes_next key value layer l sub more up h k a b below above)

  removes_begins :
      (layer l : ℕ) (sub rest : Entries)
      → IsSorted (leaves sub ++ leaves rest)
      → Alternates sub
      → Alternates rest
      → l + 1 ≡ layer
      → IsLayered l sub
      → IsLayered layer rest
      → begins_with key rest ≡ true
      → lookup key (leaves rest) ≡ some value
      → RemovesOk layer key value (mst_node l sub rest) (remove_next l sub rest)
  unfolding leaves lookup
  removes_begins layer l sub no_entries s a b up h k begins found = cc
  removes_begins layer l sub (leaf_node j v more) s a b up h k begins found =
      let same : key ≡ j = sym ((text_eq_iff j key).0 begins) in
      let v_is : v ≡ value = ground arith in
      let (above, _) = IsSorted-right (leaves sub) ((j, v) ∷ leaves more) s in
      let below = Below-begin key sub (leaf_node j v more) s begins in
      subst
        (λ (i : Text).
          RemovesOk layer key value (mst_node l sub (leaf_node i v more))
            (remove_next l sub (leaf_node i v more)))
        same
        (removes_begin layer l sub v more up h k a b below
          (subst (λ i. Above i (leaves more)) (sym same) above) v_is)
  removes_begins layer l sub (mst_node m next rest) s a b up h k begins found = cc

  pub delete_recurse-Removes :
      (layer : ℕ) (es : Entries)
      → IsSorted (leaves es)
      → Alternates es
      → IsLayered layer es
      → lookup key (leaves es) ≡ some value
      → RemovesOk layer key value es (delete_recurse key es)
  unfolding delete_recurse leaves lookup
  delete_recurse-Removes layer no_entries s a h found = cc
  delete_recurse-Removes layer (leaf_node k v rest) (above, s) a h found =
      elim (Bool-cases (text_lt k key)) [
        | inl less ↦ rw less (
            removes_behind_leaf key value layer k v rest (delete_recurse key rest) less (
              delete_recurse-Removes layer rest s a h
                (ground (arith, text_eq_iff k key, text_lt_irrefl key))))
        | inr stop ↦ elim (Bool-cases (text_eq k key)) [
          | inl same ↦
              let k_is : key ≡ k = sym ((text_eq_iff k key).0 same) in
              let v_is : v ≡ value = ground arith in
              rw (stop, same)
                (subst (λ (j : Text). RemovesOk layer key value (leaf_node j v rest) (ok rest)) k_is
                  (removes_leaf layer v rest (subst (λ j. Above j (leaves rest)) (sym k_is) above) a
                    h v_is))
          | inr other ↦
              let lt = text_lt_total k key stop other in
              let gone =
                lookup-Above key (leaves rest) (Above-trans key k (leaves rest) lt above) in
              absurd (ground arith)
        ]
      ]
  delete_recurse-Removes layer (mst_node l sub rest) s (a, f, b) (up, h, k) found =
      let left = IsSorted-left (leaves sub) (leaves rest) s in
      let right = IsSorted-right (leaves sub) (leaves rest) s in
      elim (Bool-cases (begins_with key rest)) [
        | inl begins ↦
            let below = Below-begin key sub rest s begins in
            rw (begins_stop key rest begins, begins)
              (removes_begins layer l sub rest s a b up h k begins (
                sym (
                  lookup-append_right key (leaves sub) (leaves rest)
                    (lookup-Below key (leaves sub) below))
                ∙ found))
        | inr differs ↦ elim (Bool-cases (stops_at key rest)) [
          | inl stops ↦
              let above = Above-stop key rest right stops differs in
              rw (stops, differs)
                (removes_inside key value layer l sub rest (delete_recurse key sub) up k above f b (
                  delete_recurse-Removes l sub left a h (
                    sym (
                      lookup-append_left key (leaves sub) (leaves rest)
                        (lookup-Above key (leaves rest) above))
                    ∙ found)))
          | inr goes ↦
              let below = Below-go key sub rest s f goes in
              rw goes (
                removes_behind_tree key value layer l sub rest (delete_recurse key rest) up h below
                  a f goes
                  (delete_recurse-Removes layer rest right b k (
                    sym (
                      lookup-append_right key (leaves sub) (leaves rest)
                        (lookup-Below key (leaves sub) below))
                    ∙ found)))
        ]
      ]

-- `trimTop` keeps the leaves, and leaves no root with a subtree alone.
pub trim_top-leaves :
    (layer : ℕ) (es : Entries)
    → Alternates es
    → IsLayered layer es
    → (leaves (trim_top layer es).1 ≡ leaves es)
      × Alternates (trim_top layer es).1
      × IsLayered (trim_top layer es).0 (trim_top layer es).1
unfolding trim_top leaves
trim_top-leaves layer no_entries a h = (refl, a, h)
trim_top-leaves layer (leaf_node k v rest) a h = (refl, a, h)
trim_top-leaves layer (mst_node l sub no_entries) (a, _, _) (up, h, _) =
    let (same, b, k) = trim_top-leaves l sub a h in (same ∙ sym (append-nil (leaves sub)), b, k)
trim_top-leaves layer (mst_node l sub (leaf_node k v rest)) a h = (refl, a, h)
trim_top-leaves layer (mst_node l sub (mst_node m next rest)) a h = (refl, a, h)
