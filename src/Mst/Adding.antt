-- ===== src/Mst/Adding.antt =====
-- Adding a key that the tree does not have.
use compute_contract_referen.Base.{
  arith, refl, ◌≡◌, inl, inr, ℕ, true, false, Bool-cases, [], ◌∷◌, ◌++◌, Text, text_eq, text_lt,
  lookup, none, All-append, append_assoc, Result, ok,
}
use compute_contract_referen.Mst.{
  Entries, no_entries, leaf_node, mst_node, MstError, stops_at, prepend, split_around, map_ok,
  replace_with_split, add_here,
}
use compute_contract_referen.Mst.Ordered.{
  text_lt_total, leaves, IsSorted, Above, IsLeafFirst, Alternates,
}
use compute_contract_referen.Mst.Dividing.{
  IsSorted-left, IsSorted-right, Above-stop, Below-go, Above-trans,
}
use compute_contract_referen.Mst.Splitting.{
  prepend-leaves, prepend-Alternates, absent_left, absent_right, absent_begin, Splits,
  split_around-Splits,
}
use compute_contract_referen.Mst.Inserting.{Inserts, Inserts-behind, Inserts-between}

pub record Adds (key value : Text) (es es' : Entries) : Type 0 where
  pub inserts : Inserts key value (leaves es) (leaves es')
  pub alternates : Alternates es'
  pub first : stops_at key es ≡ false → IsLeafFirst es → IsLeafFirst es'

-- The result is such a tree.
abbrev pub AddsOk : Text → Text → Entries → Result MstError Entries → Type 0
AddsOk key value es r = (es' : Entries) × (r ≡ ok es') × Adds key value es es'

module _ (key value : Text) where
  pub adds_behind_leaf :
      (k v : Text) (rest : Entries) (r : Result MstError Entries)
      → text_lt k key ≡ true
      → AddsOk key value rest r
      → AddsOk key value (leaf_node k v rest) (map_ok (leaf_node k v) r)
  unfolding leaves
  adds_behind_leaf k v rest r lt (es', e, a) = (
    leaf_node k v es',
    rw e refl,
    record {
      inserts =
          Inserts-behind key value ((k, v) ∷ []) (leaves rest) (leaves es') (lt, tt) a.inserts;
      alternates = a.alternates;
      first = λ _ _. tt;
    },
  )

  pub adds_behind_tree :
      (l : ℕ) (sub rest : Entries) (r : Result MstError Entries)
      → IsSorted (leaves sub ++ leaves rest)
      → Alternates sub
      → IsLeafFirst rest
      → stops_at key rest ≡ false
      → AddsOk key value rest r
      → AddsOk key value (mst_node l sub rest) (map_ok (mst_node l sub) r)
  unfolding leaves
  adds_behind_tree l sub rest r s alt f goes (es', e, a) = (
    mst_node l sub es',
    rw e refl,
    record {
      inserts =
          Inserts-behind key value (leaves sub) (leaves rest) (leaves es')
            (Below-go key sub rest s f goes) a.inserts;
      alternates = (alt, a.first goes f, a.alternates);
      first = λ _ nothing. elim nothing [ ];
    },
  )

  replaced :
      (l : ℕ) (sub rest left right : Entries)
      → Above key (leaves rest)
      → IsLeafFirst rest
      → Alternates rest
      → Splits key sub left right
      → Adds key value (mst_node l sub rest) (replace_with_split l (left, right) key value rest)
  unfolding leaves
  replaced l sub rest left right above f b s = record {
    inserts =
        rw
          (
            prepend-leaves l left (leaf_node key value (prepend l right rest)),
            prepend-leaves l right rest,
            ← s.parts,
            append_assoc (leaves left) (leaves right) (leaves rest),
          )
          (Inserts-between key value (leaves left) (leaves right ++ leaves rest) s.below
            (All-append _ (leaves right) (leaves rest) s.above above));
    alternates =
        prepend-Alternates l left (leaf_node key value (prepend l right rest)) s.left_alternates tt
          (prepend-Alternates l right rest s.right_alternates f b);
    first = λ _ nothing. elim nothing [ ];
  }

  pub add_here-Adds :
      (es : Entries)
      → IsSorted (leaves es)
      → Alternates es
      → lookup key (leaves es) ≡ none
      → AddsOk key value es (add_here key value es)
  unfolding add_here leaves lookup
  add_here-Adds no_entries s a h = (
    leaf_node key value no_entries,
    refl,
    record { inserts = Inserts-between key value [] [] tt tt; alternates = tt; first = λ _ _. tt },
  )
  add_here-Adds (leaf_node k v rest) (above, s) a h = elim (Bool-cases (text_lt k key)) [
    | inl less ↦ rw less (
        adds_behind_leaf k v rest (add_here key value rest) less
          (add_here-Adds rest s a (ground arith)))
    | inr stop ↦
        let other : text_eq k key ≡ false = ground arith in
        let lt : text_lt key k ≡ true = text_lt_total k key stop other in
        rw (stop, other)
          (
            leaf_node key value (leaf_node k v rest),
            refl,
            record {
              inserts =
                  Inserts-between key value [] ((k, v) ∷ leaves rest) tt
                    (lt, Above-trans key k (leaves rest) lt above);
              alternates = a;
              first = λ _ _. tt;
            },
          )
  ]
  add_here-Adds (mst_node l sub rest) s (a, f, b) h =
      let left = IsSorted-left (leaves sub) (leaves rest) s in
      let right = IsSorted-right (leaves sub) (leaves rest) s in
      let gone = absent_right key (leaves sub) (leaves rest) h in
      let differs = absent_begin key rest gone in
      elim (Bool-cases (stops_at key rest)) [
        | inl stops ↦
            rw (stops, differs)
              (
                replace_with_split l (split_around key sub) key value rest,
                refl,
                replaced l sub rest (split_around key sub).0 (split_around key sub).1
                    (Above-stop key rest right stops differs) f b
                    (split_around-Splits key sub left a
                      (absent_left key (leaves sub) (leaves rest) h)),
              )
        | inr goes ↦ rw goes (
            adds_behind_tree l sub rest (add_here key value rest) s a f goes
              (add_here-Adds rest right b gone))
      ]
