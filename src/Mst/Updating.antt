-- ===== src/Mst/Updating.antt =====
-- Updating a key that the tree has.
use compute_contract_referen.Base.{
  arith, refl, sym, subst, ◌≡◌, ◌∙◌, inl, inr, ℕ, true, Bool-cases, [], ◌∷◌, ◌++◌, Text, text_eq,
  text_eq_iff, text_lt, lookup, some, Dict, Result, ok,
}
use compute_contract_referen.Mst.{Entries, no_entries, leaf_node, mst_node, MstError, map_ok}
use compute_contract_referen.Mst.Removal.{update}
use compute_contract_referen.Mst.Ordered.{
  text_lt_irrefl, text_lt_total, leaves, IsSorted, Below, Above, IsLeafFirst, Alternates,
}
use compute_contract_referen.Mst.Dividing.{
  IsSorted-left, IsSorted-right, lookup-Above, lookup-Below, lookup-append_left,
  lookup-append_right, Above-stop, Below-go, Below-begin, Above-trans,
}
use compute_contract_referen.Mst.Lookup.{lies-cases}
use compute_contract_referen.Mst.Inserting.{Inserts, Inserts-behind, Inserts-ahead, Inserts-between}

-- The leaves are the same but for the value of the key.
pub record Replaces (key old value : Text) (xs ys : Dict Text) : Type 0 where
  pub others : Dict Text
  pub previous : Inserts key old others xs
  pub current : Inserts key value others ys

pub record Updates (key old value : Text) (es es' : Entries) : Type 0 where
  pub replaces : Replaces key old value (leaves es) (leaves es')
  pub alternates : Alternates es'
  pub first : IsLeafFirst es → IsLeafFirst es'

abbrev pub UpdatesOk : Text → Text → Text → Entries → Result MstError Entries → Type 0
UpdatesOk key old value es r = (es' : Entries) × (r ≡ ok es') × Updates key old value es es'

module _ (key old value : Text) where
  updates_behind_leaf :
      (k v : Text) (rest : Entries) (r : Result MstError Entries)
      → text_lt k key ≡ true
      → UpdatesOk key old value rest r
      → UpdatesOk key old value (leaf_node k v rest) (map_ok (leaf_node k v) r)
  unfolding leaves
  updates_behind_leaf k v rest r lt (es', e, u) = (
    leaf_node k v es',
    rw e refl,
    record {
      replaces = record {
        others = (k, v) ∷ u.replaces.others;
        previous =
            Inserts-behind key old ((k, v) ∷ []) u.replaces.others (leaves rest) (lt, tt)
              u.replaces.previous;
        current =
            Inserts-behind key value ((k, v) ∷ []) u.replaces.others (leaves es') (lt, tt)
              u.replaces.current;
      };
      alternates = u.alternates;
      first = λ _. tt;
    },
  )

  updates_behind_tree :
      (l : ℕ) (sub rest : Entries) (r : Result MstError Entries)
      → Below key (leaves sub)
      → Alternates sub
      → IsLeafFirst rest
      → UpdatesOk key old value rest r
      → UpdatesOk key old value (mst_node l sub rest) (map_ok (mst_node l sub) r)
  unfolding leaves
  updates_behind_tree l sub rest r below a f (es', e, u) = (
    mst_node l sub es',
    rw e refl,
    record {
      replaces = record {
        others = leaves sub ++ u.replaces.others;
        previous =
            Inserts-behind key old (leaves sub) u.replaces.others (leaves rest) below
              u.replaces.previous;
        current =
            Inserts-behind key value (leaves sub) u.replaces.others (leaves es') below
              u.replaces.current;
      };
      alternates = (a, u.first f, u.alternates);
      first = λ nothing. elim nothing [ ];
    },
  )

  updates_inside :
      (l : ℕ) (sub rest : Entries) (r : Result MstError Entries)
      → Above key (leaves rest)
      → IsLeafFirst rest
      → Alternates rest
      → UpdatesOk key old value sub r
      → UpdatesOk key old value (mst_node l sub rest) (map_ok (λ s. mst_node l s rest) r)
  unfolding leaves
  updates_inside l sub rest r above f b (es', e, u) = (
    mst_node l es' rest,
    rw e refl,
    record {
      replaces = record {
        others = u.replaces.others ++ leaves rest;
        previous =
            Inserts-ahead key old u.replaces.others (leaves sub) (leaves rest) above
              u.replaces.previous;
        current =
            Inserts-ahead key value u.replaces.others (leaves es') (leaves rest) above
              u.replaces.current;
      };
      alternates = (u.alternates, f, b);
      first = λ nothing. elim nothing [ ];
    },
  )

  pub update-Updates :
      (es : Entries)
      → IsSorted (leaves es)
      → Alternates es
      → lookup key (leaves es) ≡ some old
      → UpdatesOk key old value es (update key value es)
  unfolding update leaves lookup
  update-Updates no_entries s a h = cc
  update-Updates (leaf_node k v rest) (above, s) a h = elim (Bool-cases (text_lt k key)) [
    | inl less ↦ rw less (
        updates_behind_leaf k v rest (update key value rest) less
          (update-Updates rest s a (ground (arith, text_eq_iff k key, text_lt_irrefl key))))
    | inr stop ↦ elim (Bool-cases (text_eq k key)) [
      | inl same ↦
          let k_is : k ≡ key = (text_eq_iff k key).0 same in
          let v_is : v ≡ old = ground arith in
          let above' = subst (λ j. Above j (leaves rest)) k_is above in
          rw (stop, same)
            (
              leaf_node key value rest,
              refl,
              record {
                replaces = record {
                  others = leaves rest;
                  previous = rw (k_is, v_is) (Inserts-between key old [] (leaves rest) tt above');
                  current = Inserts-between key value [] (leaves rest) tt above';
                };
                alternates = a;
                first = λ _. tt;
              },
            )
      | inr other ↦
          let lt = text_lt_total k key stop other in
          let gone = lookup-Above key (leaves rest) (Above-trans key k (leaves rest) lt above) in
          absurd (ground arith)
    ]
  ]
  update-Updates (mst_node l sub rest) s (a, f, b) h =
      let left = IsSorted-left (leaves sub) (leaves rest) s in
      let right = IsSorted-right (leaves sub) (leaves rest) s in
      elim (lies-cases key rest) [
        | inl (lies, stops, differs) ↦
            let above = Above-stop key rest right stops differs in
            rw lies (
              updates_inside l sub rest (update key value sub) above f b (
                update-Updates sub left a (
                  sym (
                    lookup-append_left key (leaves sub) (leaves rest)
                      (lookup-Above key (leaves rest) above))
                  ∙ h)))
        | inr (inl (lies, goes)) ↦
            let below = Below-go key sub rest s f goes in
            rw lies (
              updates_behind_tree l sub rest (update key value rest) below a f (
                update-Updates rest right b (
                  sym (
                    lookup-append_right key (leaves sub) (leaves rest)
                      (lookup-Below key (leaves sub) below))
                  ∙ h)))
        | inr (inr (lies, begins)) ↦
            let below = Below-begin key sub rest s begins in
            rw lies (
              updates_behind_tree l sub rest (update key value rest) below a f (
                update-Updates rest right b (
                  sym (
                    lookup-append_right key (leaves sub) (leaves rest)
                      (lookup-Below key (leaves sub) below))
                  ∙ h)))
      ]
