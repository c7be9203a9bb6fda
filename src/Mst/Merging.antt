-- ===== src/Mst/Merging.antt =====
-- Merging two nodes of one layer, the second behind the first.
use compute_contract_referen.Base.{
  arith, refl, ap, sym, subst, ◌≡◌, ◌∙◌, ℕ, ◌+◌, ◌==◌, true, [], ◌∷◌, ◌++◌, Text, append_assoc,
  append-nil, Result, ok,
}
use compute_contract_referen.Mst.{Entries, no_entries, leaf_node, mst_node, MstError, map_ok}
use compute_contract_referen.Mst.Removal.{append_merge}
use compute_contract_referen.Mst.Ordered.{leaves, IsLeafFirst, Alternates}

-- Each subtree stands one layer below its node.
abbrev pub IsLayered : ℕ → Entries → Type 0
IsLayered layer no_entries = Unit
IsLayered layer (leaf_node k v rest) = IsLayered layer rest
IsLayered layer (mst_node l sub rest) = (l + 1 ≡ layer) × IsLayered l sub × IsLayered layer rest

abbrev pub IsLeaf : Entries → Type 0
IsLeaf (leaf_node k v rest) = Unit
IsLeaf _ = ⊥

pub IsLeaf-IsLeafFirst : (es : Entries) → IsLeaf es → IsLeafFirst es
IsLeaf-IsLeafFirst no_entries h = tt
IsLeaf-IsLeafFirst (leaf_node k v rest) h = tt
IsLeaf-IsLeafFirst (mst_node l sub rest) h = h

pub record Merges (layer : ℕ) (left right es : Entries) : Type 0 where
  pub joined : leaves es ≡ leaves left ++ leaves right
  pub alternates : Alternates es
  pub layered : IsLayered layer es
  pub first : IsLeaf left → IsLeaf es

abbrev pub MergesOk : ℕ → Entries → Entries → Result MstError Entries → Type 0
MergesOk layer left right r = (es : Entries) × (r ≡ ok es) × Merges layer left right es

merges_behind_leaf :
    (layer : ℕ) (k v : Text) (rest right : Entries) (r : Result MstError Entries)
    → MergesOk layer rest right r
    → MergesOk layer (leaf_node k v rest) right (map_ok (leaf_node k v) r)
unfolding leaves
merges_behind_leaf layer k v rest right r (es, e, m) = (
  leaf_node k v es,
  rw e refl,
  record {
    joined = ap (λ d. (k, v) ∷ d) m.joined;
    alternates = m.alternates;
    layered = m.layered;
    first = λ _. tt;
  },
)

merges_behind_tree :
    (layer l : ℕ) (sub rest right : Entries) (r : Result MstError Entries)
    → l + 1 ≡ layer
    → IsLayered l sub
    → Alternates sub
    → IsLeaf rest
    → MergesOk layer rest right r
    → MergesOk layer (mst_node l sub rest) right (map_ok (mst_node l sub) r)
unfolding leaves
merges_behind_tree layer l sub rest right r up inner a leaf (es, e, m) = (
  mst_node l sub es,
  rw e refl,
  record {
    joined =
        ap (λ d. leaves sub ++ d) m.joined
        ∙ sym (append_assoc (leaves sub) (leaves rest) (leaves right));
    alternates = (a, IsLeaf-IsLeafFirst es (m.first leaf), m.alternates);
    layered = (up, inner, m.layered);
    first = λ nothing. elim nothing [ ];
  },
)

merges_subtrees :
    (layer l : ℕ) (sub next rest : Entries) (r : Result MstError Entries)
    → l + 1 ≡ layer
    → IsLayered layer rest
    → IsLeafFirst rest
    → Alternates rest
    → MergesOk l sub next r
    → MergesOk layer
        (mst_node l sub no_entries)
        (mst_node l next rest)
        (map_ok (λ s. mst_node l s rest) r)
unfolding leaves
merges_subtrees layer l sub next rest r up outer f b (es, e, m) = (
  mst_node l es rest,
  rw e refl,
  record {
    joined =
        ap (λ d. d ++ leaves rest) m.joined
        ∙ (append_assoc (leaves sub) (leaves next) (leaves rest)
            ∙ ap (λ d. d ++ (leaves next ++ leaves rest)) (sym (append-nil (leaves sub))));
    alternates = (m.alternates, f, b);
    layered = (up, m.layered, outer);
    first = λ nothing. elim nothing [ ];
  },
)

same_layer : (l m layer : ℕ) → l + 1 ≡ layer → m + 1 ≡ layer → m ≡ l
same_layer l m layer h k = omega (arith, h, k)

-- Nodes of one layer can be merged, and the result has the leaves of the first and then those of the
-- second.
pub append_merge-Merges :
    (layer : ℕ) (left right : Entries)
    → Alternates left
    → Alternates right
    → IsLayered layer left
    → IsLayered layer right
    → MergesOk layer left right (append_merge left right)
unfolding append_merge leaves
append_merge-Merges layer no_entries right a b h k = (
  right,
  refl,
  record { joined = refl; alternates = b; layered = k; first = λ nothing. elim nothing [ ] },
)
append_merge-Merges layer (leaf_node j v rest) right a b h k =
    merges_behind_leaf layer j v rest right (append_merge rest right)
      (append_merge-Merges layer rest right a b h k)
append_merge-Merges layer (mst_node l sub no_entries) no_entries a b h k = (
  mst_node l sub no_entries,
  refl,
  record {
    joined = sym (append-nil (leaves sub ++ []));
    alternates = a;
    layered = h;
    first = λ nothing. elim nothing [ ];
  },
)
append_merge-Merges layer (mst_node l sub no_entries) (leaf_node j v rest) (a, _, _) b (up, h, _)
      k =
    (
      mst_node l sub (leaf_node j v rest),
      refl,
      record {
        joined = ap (λ d. d ++ (j, v) ∷ leaves rest) (sym (append-nil (leaves sub)));
        alternates = (a, tt, b);
        layered = (up, h, k);
        first = λ nothing. elim nothing [ ];
      },
    )
append_merge-Merges layer (mst_node l sub no_entries) (mst_node m next rest) (a, _, _) (b, f, c)
      (up, h, _) (up', k, outer) =
    let same : m ≡ l = same_layer l m layer up up' in
    let here : (l == m) ≡ true = ground arith in
    rw here (
      subst
        (λ (n : ℕ).
          MergesOk layer (mst_node l sub no_entries) (mst_node n next rest)
            (map_ok (λ s. mst_node l s rest) (append_merge sub next)))
        (sym same)
        (merges_subtrees layer l sub next rest (append_merge sub next) up outer f c
          (append_merge-Merges l sub next a b h (subst (λ (n : ℕ). IsLayered n next) same k))))
append_merge-Merges layer (mst_node l sub (leaf_node j v rest)) right (a, _, b) c (up, h, outer) k =
    merges_behind_tree layer l sub (leaf_node j v rest) right
      (append_merge (leaf_node j v rest) right) up h a tt
      (append_merge-Merges layer (leaf_node j v rest) right b c outer k)
append_merge-Merges layer (mst_node l sub (mst_node m next rest)) right (a, nothing, b) c h k =
    elim nothing [ ]
