-- ===== src/Mst/Layered.antt =====
-- The layers of the tree under `add` and `update`: where the pieces of a split land, and how deep
-- each child lies below its node.
use compute_contract_referen.Base.{
  arith, refl, subst, ◌≡◌, ◌<◌, ◌≤◌, inl, inr, ℕ, zero, suc, ◌+◌, ◌-◌, ◌==◌, ltb, Bool-cases, Text,
  text_eq, text_lt, Result, ok, err,
}
use compute_contract_referen.Mst.{
  Entries, no_entries, leaf_node, mst_node, MstNode, MstError, stops_at, begins_with, lies_before,
  prepend, split_around, map_ok, add_here, new_child, parents, raise, add_above, add_at, add_below,
}
use compute_contract_referen.Mst.Removal.{update}
use compute_contract_referen.Mst.Merging.{IsLayered}
use compute_contract_referen.Mst.Deleting.{prepend-IsLayered}

-- What a result satisfies if it is no error.
abbrev pub Holds {ℓ κ} : {A : Type ℓ} → (A → Type κ) → Result MstError A → Type κ
Holds P (ok a) = P a
Holds P (err e) = Unit

pub Holds-map {ℓ κ} :
    {A B : Type ℓ} (P : A → Type κ) (Q : B → Type κ) (f : A → B) (r : Result MstError A)
    → Holds P r
    → ((a : A) → P a → Q (f a))
    → Holds Q (map_ok f r)
Holds-map P Q f (ok a) h k = k a h
Holds-map P Q f (err e) h k = tt

split_around-IsLayered :
    (key : Text) (layer : ℕ) (es : Entries)
    → IsLayered layer es
    → IsLayered layer (split_around key es).0 × IsLayered layer (split_around key es).1
unfolding split_around
split_around-IsLayered key layer no_entries h = (tt, tt)
split_around-IsLayered key layer (leaf_node k v rest) h = elim (Bool-cases (text_lt k key)) [
  | inl less ↦ rw less (split_around-IsLayered key layer rest h)
  | inr stop ↦ rw stop (tt, h)
]
split_around-IsLayered key layer (mst_node l sub rest) (up, h, k) =
    let (left, right) = split_around-IsLayered key l sub h in
    let (first, later) = split_around-IsLayered key layer rest k in
    elim (Bool-cases (stops_at key rest)) [
      | inl stops ↦ rw stops (
        prepend-IsLayered layer l (split_around key sub).0 no_entries up left tt,
        prepend-IsLayered layer l (split_around key sub).1 rest up right k,
      )
      | inr goes ↦ rw goes ((up, h, first), later)
    ]

module _ (key value : Text) where
  pub update-IsLayered :
      (layer : ℕ) (es : Entries)
      → IsLayered layer es
      → Holds (IsLayered layer) (update key value es)
  unfolding update
  update-IsLayered layer no_entries h = tt
  update-IsLayered layer (leaf_node k v rest) h =
      let later =
        Holds-map (IsLayered layer) (IsLayered layer) (leaf_node k v) (update key value rest)
          (update-IsLayered layer rest h) (λ a p. p) in
      elim (Bool-cases (text_lt k key)) [
        | inl less ↦ rw less later
        | inr stop ↦ elim (Bool-cases (text_eq k key)) [
          | inl same ↦ rw (stop, same) h
          | inr other ↦ rw (stop, other) tt
        ]
      ]
  update-IsLayered layer (mst_node l sub rest) (up, h, k) =
      let below =
        Holds-map (IsLayered l) (IsLayered layer) (λ s. mst_node l s rest) (update key value sub)
          (update-IsLayered l sub h) (λ a p. (up, p, k)) in
      let later =
        Holds-map (IsLayered layer) (IsLayered layer) (mst_node l sub) (update key value rest)
          (update-IsLayered layer rest k) (λ a p. (up, h, p)) in
      elim (Bool-cases (lies_before key rest)) [
        | inl lies ↦ rw lies below
        | inr behind ↦ rw behind later
      ]

  add_here-IsLayered :
      (layer : ℕ) (es : Entries)
      → IsLayered layer es
      → Holds (IsLayered layer) (add_here key value es)
  unfolding add_here
  add_here-IsLayered layer no_entries h = tt
  add_here-IsLayered layer (leaf_node k v rest) h =
      let later =
        Holds-map (IsLayered layer) (IsLayered layer) (leaf_node k v) (add_here key value rest)
          (add_here-IsLayered layer rest h) (λ a p. p) in
      elim (Bool-cases (text_lt k key)) [
        | inl less ↦ rw less later
        | inr stop ↦ elim (Bool-cases (text_eq k key)) [
          | inl same ↦ rw (stop, same) tt
          | inr other ↦ rw (stop, other) h
        ]
      ]
  add_here-IsLayered layer (mst_node l sub rest) (up, h, k) =
      let later =
        Holds-map (IsLayered layer) (IsLayered layer) (mst_node l sub) (add_here key value rest)
          (add_here-IsLayered layer rest k) (λ a p. (up, h, p)) in
      let (left, right) = split_around-IsLayered key l sub h in
      elim (Bool-cases (stops_at key rest)) [
        | inr goes ↦ rw goes later
        | inl stops ↦ elim (Bool-cases (begins_with key rest)) [
          | inl begins ↦ rw (stops, begins) tt
          | inr differs ↦
              rw (stops, differs)
                (prepend-IsLayered layer l (split_around key sub).0
                  (leaf_node key value (prepend l (split_around key sub).1 rest)) up left
                  (prepend-IsLayered layer l (split_around key sub).1 rest up right k))
        ]
      ]

new_child-IsLayered :
    (key_zeros n : ℕ) (key value : Text)
    → IsLayered (key_zeros + n) (new_child key_zeros n key value)
unfolding new_child
new_child-IsLayered key_zeros zero key value = tt
new_child-IsLayered key_zeros (suc n) key value =
    (omega arith, new_child-IsLayered key_zeros n key value, tt)

parents-IsLayered :
    (n layer : ℕ) (es : Entries) → IsLayered layer es → IsLayered (layer + n) (parents n layer es)
unfolding parents
parents-IsLayered zero layer es h = subst (λ m. IsLayered m es) (omega arith) h
parents-IsLayered (suc n) layer es h =
    subst (λ m. IsLayered m (parents n (layer + 1) (mst_node layer es no_entries))) (omega arith)
      (parents-IsLayered n (layer + 1) (mst_node layer es no_entries) (refl, h, tt))

raise-IsLayered :
    (n layer top : ℕ) (es rest : Entries)
    → (layer + n) + 1 ≡ top
    → IsLayered layer es
    → IsLayered top rest
    → IsLayered top (raise n layer es rest)
raise-IsLayered n layer top no_entries rest up h k = k
raise-IsLayered n layer top (leaf_node j v es) rest up h k =
    (up, parents-IsLayered n layer (leaf_node j v es) h, k)
raise-IsLayered n layer top (mst_node m sub es) rest up h k =
    (up, parents-IsLayered n layer (mst_node m sub es) h, k)

-- A node that is layered, at the old layer if the key does not belong above it.
abbrev pub LayeredNode : ℕ → ℕ → MstNode → Type 0
LayeredNode layer key_zeros node =
    IsLayered node.layer node.entries × (key_zeros ≤ layer → node.layer ≡ layer)

module _ (key_zeros : ℕ) (key value : Text) where
  add_above-IsLayered :
      (layer : ℕ) (es : Entries)
      → IsLayered layer es
      → layer < key_zeros
      → IsLayered key_zeros (add_above layer key_zeros key value es)
  unfolding add_above
  add_above-IsLayered layer es h lt =
      let n = (key_zeros - layer) - 1 in
      let (left, right) = split_around-IsLayered key layer es h in
      raise-IsLayered n layer key_zeros (split_around key es).0
        (leaf_node key value (raise n layer (split_around key es).1 no_entries)) (omega (arith, lt))
        left
        (raise-IsLayered n layer key_zeros (split_around key es).1 no_entries (omega (arith, lt))
          right tt)

  pub add_at-IsLayered :
      (lower : Result MstError Entries) (layer : ℕ) (es : Entries)
      → IsLayered layer es
      → (key_zeros < layer → Holds (IsLayered layer) lower)
      → Holds (LayeredNode layer key_zeros) (add_at lower layer key_zeros key value es)
  add_at-IsLayered lower layer es h k = elim (Bool-cases (key_zeros == layer)) [
    | inl here ↦ rw here (
        Holds-map (IsLayered layer) (LayeredNode layer key_zeros)
          (λ e. record { layer = layer; entries = e }) (add_here key value es)
          (add_here-IsLayered key value layer es h) (λ a p. (p, λ _. refl)))
    | inr elsewhere ↦ elim (Bool-cases (ltb key_zeros layer)) [
      | inl below ↦
          rw (elsewhere, below)
            (Holds-map (IsLayered layer) (LayeredNode layer key_zeros)
              (λ e. record { layer = layer; entries = e }) lower (k (ground arith))
              (λ a p. (p, λ _. refl)))
      | inr above ↦
          rw (elsewhere, above)
            (add_above-IsLayered layer es h (ground arith), λ le. absurd (ground arith))
    ]
  ]

  child_before :
      (layer : ℕ) (rest : Entries)
      → IsLayered layer rest
      → key_zeros < layer
      → IsLayered layer
          (mst_node (layer - 1) (new_child key_zeros ((layer - 1) - key_zeros) key value) rest)
  child_before layer rest h lt =
      let n = (layer - 1) - key_zeros in
      let same : key_zeros + n ≡ layer - 1 = omega (arith, lt) in
      (
        omega (arith, lt),
        subst (λ m. IsLayered m (new_child key_zeros n key value)) same
            (new_child-IsLayered key_zeros n key value),
        h,
      )

  pub add_below-IsLayered :
      (layer : ℕ) (es : Entries)
      → IsLayered layer es
      → key_zeros < layer
      → Holds (IsLayered layer) (add_below layer key_zeros key value es)
  unfolding add_below
  add_below-IsLayered layer no_entries h lt = child_before layer no_entries tt lt
  add_below-IsLayered layer (leaf_node k v rest) h lt = elim (Bool-cases (text_lt k key)) [
    | inl less ↦ rw less (
        Holds-map (IsLayered layer) (IsLayered layer) (leaf_node k v)
          (add_below layer key_zeros key value rest) (add_below-IsLayered layer rest h lt)
          (λ a p. p))
    | inr stop ↦ rw stop (child_before layer (leaf_node k v rest) h lt)
  ]
  add_below-IsLayered layer (mst_node l sub rest) (up, h, k) lt =
      let lower = add_below l key_zeros key value sub in
      elim (Bool-cases (stops_at key rest)) [
        | inl stops ↦ rw stops (
            Holds-map (LayeredNode l key_zeros) (IsLayered layer)
              (λ (node : MstNode). mst_node node.layer node.entries rest)
              (add_at lower l key_zeros key value sub)
              (add_at-IsLayered lower l sub h (λ less. add_below-IsLayered l sub h less))
              (λ node p. (omega (arith, p.1 (omega (arith, up, lt)), up), p.0, k)))
        | inr goes ↦ rw goes (
            Holds-map (IsLayered layer) (IsLayered layer) (mst_node l sub)
              (add_below layer key_zeros key value rest) (add_below-IsLayered layer rest k lt)
              (λ a p. (up, h, p)))
      ]
