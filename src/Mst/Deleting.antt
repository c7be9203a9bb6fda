-- ===== src/Mst/Deleting.antt =====
-- Deleting a key that the tree has.
use compute_contract_referen.Base.{
  refl, ap, sym, ◌≡◌, ◌∙◌, ℕ, ◌+◌, true, false, [], ◌∷◌, ◌++◌, Text, text_lt, append-nil, Result,
  ok,
}
use compute_contract_referen.Mst.{
  Entries, no_entries, leaf_node, mst_node, MstError, stops_at, prepend, map_ok,
}
use compute_contract_referen.Mst.Removal.{append_merge, close_gap}
use compute_contract_referen.Mst.Ordered.{leaves, Below, Above, IsLeafFirst, Alternates}
use compute_contract_referen.Mst.Splitting.{prepend-leaves, prepend-Alternates}
use compute_contract_referen.Mst.Inserting.{Inserts, Inserts-behind, Inserts-ahead, Inserts-between}
use compute_contract_referen.Mst.Merging.{IsLayered, MergesOk, append_merge-Merges}

-- Putting the key back gives the old leaves.
pub record Removes (layer : ℕ) (key value : Text) (es es' : Entries) : Type 0 where
  pub inserts : Inserts key value (leaves es') (leaves es)
  pub alternates : Alternates es'
  pub layered : IsLayered layer es'
  pub first : stops_at key es ≡ false → IsLeafFirst es → IsLeafFirst es'

abbrev pub RemovesOk : ℕ → Text → Text → Entries → Result MstError Entries → Type 0
RemovesOk layer key value es r = (es' : Entries) × (r ≡ ok es') × Removes layer key value es es'

pub prepend-IsLayered :
    (layer l : ℕ) (es rest : Entries)
    → l + 1 ≡ layer
    → IsLayered l es
    → IsLayered layer rest
    → IsLayered layer (prepend l es rest)
prepend-IsLayered layer l no_entries rest up h k = k
prepend-IsLayered layer l (leaf_node j v es) rest up h k = (up, h, k)
prepend-IsLayered layer l (mst_node m sub es) rest up h k = (up, h, k)

module _ (key value : Text) where
  pub removes_behind_leaf :
      (layer : ℕ) (k v : Text) (rest : Entries) (r : Result MstError Entries)
      → text_lt k key ≡ true
      → RemovesOk layer key value rest r
      → RemovesOk layer key value (leaf_node k v rest) (map_ok (leaf_node k v) r)
  unfolding leaves
  removes_behind_leaf layer k v rest r lt (es', e, u) = (
    leaf_node k v es',
    rw e refl,
    record {
      inserts =
          Inserts-behind key value ((k, v) ∷ []) (leaves es') (leaves rest) (lt, tt) u.inserts;
      alternates = u.alternates;
      layered = u.layered;
      first = λ _ _. tt;
    },
  )

  pub removes_behind_tree :
      (layer l : ℕ) (sub rest : Entries) (r : Result MstError Entries)
      → l + 1 ≡ layer
      → IsLayered l sub
      → Below key (leaves sub)
      → Alternates sub
      → IsLeafFirst rest
      → stops_at key rest ≡ false
      → RemovesOk layer key value rest r
      → RemovesOk layer key value (mst_node l sub rest) (map_ok (mst_node l sub) r)
  unfolding leaves
  removes_behind_tree layer l sub rest r up h below a f goes (es', e, u) = (
    mst_node l sub es',
    rw e refl,
    record {
      inserts = Inserts-behind key value (leaves sub) (leaves es') (leaves rest) below u.inserts;
      alternates = (a, u.first goes f, u.alternates);
      layered = (up, h, u.layered);
      first = λ _ nothing. elim nothing [ ];
    },
  )

  pub removes_inside :
      (layer l : ℕ) (sub rest : Entries) (r : Result MstError Entries)
      → l + 1 ≡ layer
      → IsLayered layer rest
      → Above key (leaves rest)
      → IsLeafFirst rest
      → Alternates rest
      → RemovesOk l key value sub r
      → RemovesOk layer key value (mst_node l sub rest) (map_ok (λ s. prepend l s rest) r)
  unfolding leaves
  removes_inside layer l sub rest r up h above f b (es', e, u) = (
    prepend l es' rest,
    rw e refl,
    record {
      inserts =
          rw (prepend-leaves l es' rest)
            (Inserts-ahead key value (leaves es') (leaves sub) (leaves rest) above u.inserts);
      alternates = prepend-Alternates l es' rest u.alternates f b;
      layered = prepend-IsLayered layer l es' rest up u.layered h;
      first = λ _ nothing. elim nothing [ ];
    },
  )

  -- The leaf between a subtree and what follows goes: subtrees that come to stand side by side merge.
  closes_gap :
      (layer l : ℕ) (sub rest : Entries)
      → l + 1 ≡ layer
      → IsLayered l sub
      → IsLayered layer rest
      → Alternates sub
      → Alternates rest
      → MergesOk layer (mst_node l sub no_entries) rest (close_gap l sub rest)
  unfolding leaves
  closes_gap layer l sub no_entries up h k a b = (
    mst_node l sub no_entries,
    refl,
    record {
      joined = sym (append-nil (leaves sub ++ []));
      alternates = (a, tt, tt);
      layered = (up, h, tt);
      first = λ nothing. elim nothing [ ];
    },
  )
  closes_gap layer l sub (leaf_node j v rest) up h k a b = (
    mst_node l sub (leaf_node j v rest),
    refl,
    record {
      joined = ap (λ d. d ++ (j, v) ∷ leaves rest) (sym (append-nil (leaves sub)));
      alternates = (a, tt, b);
      layered = (up, h, k);
      first = λ nothing. elim nothing [ ];
    },
  )
  closes_gap layer l sub (mst_node m next rest) up h k a b =
      unfold append_merge in
      append_merge-Merges layer (mst_node l sub no_entries) (mst_node m next rest) (a, tt, tt) b
        (up, h, tt) k

  pub removes_next :
      (layer l : ℕ) (sub rest : Entries)
      → l + 1 ≡ layer
      → IsLayered l sub
      → IsLayered layer rest
      → Alternates sub
      → Alternates rest
      → Below key (leaves sub)
      → Above key (leaves rest)
      → RemovesOk layer key value (mst_node l sub (leaf_node key value rest)) (close_gap l sub rest)
  unfolding leaves
  removes_next layer l sub rest up h k a b below above =
      let (es, e, m) = closes_gap layer l sub rest up h k a b in
      let joined : leaves es ≡ leaves sub ++ leaves rest =
        m.joined ∙ ap (λ d. d ++ leaves rest) (append-nil (leaves sub)) in
      (
        es,
        e,
        record {
          inserts = rw joined (Inserts-between key value (leaves sub) (leaves rest) below above);
          alternates = m.alternates;
          layered = m.layered;
          first = λ _ nothing. elim nothing [ ];
        },
      )
