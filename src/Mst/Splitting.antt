-- ===== src/Mst/Splitting.antt =====
-- Splitting a tree around a key that it does not have.
use compute_contract_referen.Base.{
  arith, refl, ap, sym, ◌≡◌, ◌∙◌, inl, inr, ℕ, true, false, Bool-cases, [], ◌∷◌, ◌++◌, Text,
  text_lt, lookup, none, Dict, All-append, append_assoc, append-nil,
}
use compute_contract_referen.Mst.{
  Entries, no_entries, leaf_node, mst_node, stops_at, begins_with, prepend, split_around,
}
use compute_contract_referen.Mst.Ordered.{
  text_lt_total, leaves, IsSorted, Below, Above, IsLeafFirst, Alternates,
}
use compute_contract_referen.Mst.Dividing.{
  IsSorted-left, IsSorted-right, Above-stop, Below-go, Above-trans,
}

pub prepend-leaves :
    (l : ℕ) (es rest : Entries) → leaves (prepend l es rest) ≡ leaves es ++ leaves rest
unfolding leaves
prepend-leaves l no_entries rest = refl
prepend-leaves l (leaf_node k v es) rest = refl
prepend-leaves l (mst_node m sub es) rest = refl

pub prepend-Alternates :
    (l : ℕ) (es rest : Entries)
    → Alternates es
    → IsLeafFirst rest
    → Alternates rest
    → Alternates (prepend l es rest)
prepend-Alternates l no_entries rest a f b = b
prepend-Alternates l (leaf_node k v es) rest a f b = (a, f, b)
prepend-Alternates l (mst_node m sub es) rest a f b = (a, f, b)

-- A key that is absent from a list is absent from its parts.
pub absent_left :
    (key : Text) (xs ys : Dict Text) → lookup key (xs ++ ys) ≡ none → lookup key xs ≡ none
unfolding lookup
absent_left key [] ys h = refl
absent_left key ((k, v) ∷ xs) ys h = ground (arith, absent_left key xs ys)

pub absent_right :
    (key : Text) (xs ys : Dict Text) → lookup key (xs ++ ys) ≡ none → lookup key ys ≡ none
unfolding lookup
absent_right key [] ys h = h
absent_right key ((k, v) ∷ xs) ys h = ground (arith, absent_right key xs ys)

pub absent_begin :
    (key : Text) (rest : Entries) → lookup key (leaves rest) ≡ none → begins_with key rest ≡ false
unfolding leaves lookup
absent_begin key no_entries h = refl
absent_begin key (leaf_node k v rest) h = ground arith
absent_begin key (mst_node l sub rest) h = refl

-- The two halves have the leaves below the key and those above it.
pub record Splits (key : Text) (es left right : Entries) : Type 0 where
  pub parts : leaves left ++ leaves right ≡ leaves es
  pub below : Below key (leaves left)
  pub above : Above key (leaves right)
  pub left_alternates : Alternates left
  pub right_alternates : Alternates right
  pub first : stops_at key es ≡ false → IsLeafFirst es → IsLeafFirst left

module _ (key : Text) where
  split_leaf :
      (k v : Text) (rest left right : Entries)
      → text_lt k key ≡ true
      → Splits key rest left right
      → Splits key (leaf_node k v rest) (leaf_node k v left) right
  unfolding leaves
  split_leaf k v rest left right lt s = record {
    parts = ap (λ d. (k, v) ∷ d) s.parts;
    below = (lt, s.below);
    above = s.above;
    left_alternates = s.left_alternates;
    right_alternates = s.right_alternates;
    first = λ _ _. tt;
  }

  split_inside :
      (l : ℕ) (sub rest left right : Entries)
      → stops_at key rest ≡ true
      → Above key (leaves rest)
      → IsLeafFirst rest
      → Alternates rest
      → Splits key sub left right
      → Splits key (mst_node l sub rest) (prepend l left no_entries) (prepend l right rest)
  unfolding leaves
  split_inside l sub rest left right stops above f b s = record {
    parts =
        rw (prepend-leaves l left no_entries, prepend-leaves l right rest, append-nil (leaves left))
          (sym (append_assoc (leaves left) (leaves right) (leaves rest))
            ∙ ap (λ d. d ++ leaves rest) s.parts);
    below = rw (prepend-leaves l left no_entries, append-nil (leaves left)) s.below;
    above =
        rw (prepend-leaves l right rest) (All-append _ (leaves right) (leaves rest) s.above above);
    left_alternates = prepend-Alternates l left no_entries s.left_alternates tt tt;
    right_alternates = prepend-Alternates l right rest s.right_alternates f b;
    first = λ _ nothing. elim nothing [ ];
  }

  split_behind :
      (l : ℕ) (sub rest left right : Entries)
      → Below key (leaves sub)
      → Alternates sub
      → IsLeafFirst left
      → Splits key rest left right
      → Splits key (mst_node l sub rest) (mst_node l sub left) right
  unfolding leaves
  split_behind l sub rest left right below a f s = record {
    parts =
        append_assoc (leaves sub) (leaves left) (leaves right) ∙ ap (λ d. leaves sub ++ d) s.parts;
    below = All-append _ (leaves sub) (leaves left) below s.below;
    above = s.above;
    left_alternates = (a, f, s.left_alternates);
    right_alternates = s.right_alternates;
    first = λ _ nothing. elim nothing [ ];
  }

  pub split_around-Splits :
      (es : Entries)
      → IsSorted (leaves es)
      → Alternates es
      → lookup key (leaves es) ≡ none
      → Splits key es (split_around key es).0 (split_around key es).1
  unfolding split_around leaves lookup
  split_around-Splits no_entries s a h = record {
    parts = refl;
    below = tt;
    above = tt;
    left_alternates = tt;
    right_alternates = tt;
    first = λ _ _. tt;
  }
  split_around-Splits (leaf_node k v rest) (above, s) a h = elim (Bool-cases (text_lt k key)) [
    | inl less ↦ rw less (
        split_leaf k v rest (split_around key rest).0 (split_around key rest).1 less
          (split_around-Splits rest s a (ground arith)))
    | inr stop ↦
        let lt : text_lt key k ≡ true = text_lt_total k key stop (ground arith) in
        rw stop (record {
          parts = refl;
          below = tt;
          above = (lt, Above-trans key k (leaves rest) lt above);
          left_alternates = tt;
          right_alternates = a;
          first = λ _ _. tt;
        })
  ]
  split_around-Splits (mst_node l sub rest) s (a, f, b) h =
      let left = IsSorted-left (leaves sub) (leaves rest) s in
      let right = IsSorted-right (leaves sub) (leaves rest) s in
      let gone = absent_right key (leaves sub) (leaves rest) h in
      elim (Bool-cases (stops_at key rest)) [
        | inl stops ↦ rw stops (
            split_inside l sub rest (split_around key sub).0 (split_around key sub).1 stops
              (Above-stop key rest right stops (absent_begin key rest gone)) f b
              (split_around-Splits sub left a (absent_left key (leaves sub) (leaves rest) h)))
        | inr goes ↦
            let later = split_around-Splits rest right b gone in
            rw goes (
              split_behind l sub rest (split_around key rest).0 (split_around key rest).1
                (Below-go key sub rest s f goes) a (later.first goes f) later)
      ]
