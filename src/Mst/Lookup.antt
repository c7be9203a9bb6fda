-- ===== src/Mst/Lookup.antt =====
-- `get` of the tree against the list of its leaves.
use compute_contract_referen.Base.{
  arith, refl, sym, ◌≡◌, ◌∙◌, ◌⊎◌, inl, inr, true, false, Bool-cases, Text, text_eq, text_eq_iff,
  text_lt, lookup,
}
use compute_contract_referen.Mst.{
  Entries, no_entries, leaf_node, mst_node, stops_at, begins_with, lies_before, get,
}
use compute_contract_referen.Mst.Ordered.{
  text_lt_irrefl, text_lt_total, leaves, IsSorted, Alternates,
}
use compute_contract_referen.Mst.Dividing.{
  IsSorted-left, IsSorted-right, lookup-Above, lookup-Below, lookup-append_left,
  lookup-append_right, Above-stop, Below-go, Below-begin, Above-trans,
}

pub lies-cases :
    (key : Text) (rest : Entries)
    → ((lies_before key rest ≡ true) × (stops_at key rest ≡ true) × (begins_with key rest ≡ false))
      ⊎ (lies_before key rest ≡ false) × (stops_at key rest ≡ false)
      ⊎ (lies_before key rest ≡ false) × (begins_with key rest ≡ true)
lies-cases key rest = ground arith

-- In a tree whose leaves are sorted and in which no two subtrees stand next to each other, `get`
-- finds the value that the leaves have for the key, and nothing where they have none.
pub get-lookup :
    (key : Text) (es : Entries)
    → IsSorted (leaves es)
    → Alternates es
    → get key es ≡ lookup key (leaves es)
unfolding get leaves lookup
get-lookup key no_entries s a = refl
get-lookup key (leaf_node k v rest) (above, s) a = elim (Bool-cases (text_lt k key)) [
  | inl less ↦ ground (arith, get-lookup key rest s a, text_eq_iff k key, text_lt_irrefl key)
  | inr stop ↦ elim (Bool-cases (text_eq k key)) [
    | inl same ↦ ground arith
    | inr other ↦
        let lt = text_lt_total k key stop other in
        let none_there =
          lookup-Above key (leaves rest) (Above-trans key k (leaves rest) lt above) in
        ground arith
  ]
]
get-lookup key (mst_node l sub rest) s (a, f, b) =
    let left = IsSorted-left (leaves sub) (leaves rest) s in
    let right = IsSorted-right (leaves sub) (leaves rest) s in
    elim (lies-cases key rest) [
      | inl (lies, stops, differs) ↦ rw lies (
          get-lookup key sub left a
          ∙ sym (
              lookup-append_left key (leaves sub) (leaves rest)
                (lookup-Above key (leaves rest) (Above-stop key rest right stops differs))))
      | inr (inl (lies, goes)) ↦ rw lies (
          get-lookup key rest right b
          ∙ sym (
              lookup-append_right key (leaves sub) (leaves rest)
                (lookup-Below key (leaves sub) (Below-go key sub rest s f goes))))
      | inr (inr (lies, begins)) ↦ rw lies (
          get-lookup key rest right b
          ∙ sym (
              lookup-append_right key (leaves sub) (leaves rest)
                (lookup-Below key (leaves sub) (Below-begin key sub rest s begins))))
    ]
