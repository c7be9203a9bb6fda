-- ===== src/Mst/Dividing.antt =====
-- Sorted lists of leaves, cut in two at a key.
use compute_contract_referen.Base.{
  arith, refl, subst, ◌≡◌, true, false, [], ◌∷◌, ◌++◌, All-left, All-right, Text, text_eq_iff,
  text_lt, Dict, lookup, none,
}
use compute_contract_referen.Mst.{Entries, no_entries, leaf_node, mst_node, stops_at, begins_with}
use compute_contract_referen.Mst.Ordered.{
  text_lt_irrefl, text_lt_trans, text_lt_total, leaves, Below, Above, IsSorted, IsLeafFirst,
}

pub Below-trans : (j k : Text) (d : Dict Text) → Below j d → text_lt j k ≡ true → Below k d
Below-trans j k [] h lt = tt
Below-trans j k ((i, v) ∷ d) (b, h) lt = (text_lt_trans i j k b lt, Below-trans j k d h lt)

pub Above-trans : (j k : Text) (d : Dict Text) → text_lt j k ≡ true → Above k d → Above j d
Above-trans j k [] lt h = tt
Above-trans j k ((i, v) ∷ d) lt (a, h) = (text_lt_trans j k i lt a, Above-trans j k d lt h)

pub IsSorted-left : (xs ys : Dict Text) → IsSorted (xs ++ ys) → IsSorted xs
IsSorted-left [] ys s = tt
IsSorted-left ((k, v) ∷ xs) ys (a, s) =
    (All-left (λ (e : Text × Text). text_lt k e.0 ≡ true) xs ys a, IsSorted-left xs ys s)

pub IsSorted-right : (xs ys : Dict Text) → IsSorted (xs ++ ys) → IsSorted ys
IsSorted-right [] ys s = s
IsSorted-right ((k, v) ∷ xs) ys (a, s) = IsSorted-right xs ys s

-- Whatever stands before a key of a sorted list is below it.
pub Below-before :
    (xs : Dict Text) (k v : Text) (ys : Dict Text) → IsSorted (xs ++ (k, v) ∷ ys) → Below k xs
Below-before [] k v ys s = tt
Below-before ((j, w) ∷ xs) k v ys (a, s) = (
  (All-right (λ (e : Text × Text). text_lt j e.0 ≡ true) xs ((k, v) ∷ ys) a).0,
  Below-before xs k v ys s,
)

pub lookup-Above : (key : Text) (d : Dict Text) → Above key d → lookup key d ≡ none
unfolding lookup
lookup-Above key [] h = refl
lookup-Above key ((k, v) ∷ d) (a, h) =
    ground (arith, lookup-Above key d h, text_eq_iff k key, text_lt_irrefl key)

pub lookup-Below : (key : Text) (d : Dict Text) → Below key d → lookup key d ≡ none
unfolding lookup
lookup-Below key [] h = refl
lookup-Below key ((k, v) ∷ d) (a, h) =
    ground (arith, lookup-Below key d h, text_eq_iff k key, text_lt_irrefl key)

pub lookup-append_left :
    (key : Text) (xs ys : Dict Text) → lookup key ys ≡ none → lookup key (xs ++ ys) ≡ lookup key xs
unfolding lookup
lookup-append_left key [] ys h = h
lookup-append_left key ((k, v) ∷ xs) ys h = ground (arith, lookup-append_left key xs ys h)

pub lookup-append_right :
    (key : Text) (xs ys : Dict Text) → lookup key xs ≡ none → lookup key (xs ++ ys) ≡ lookup key ys
unfolding lookup
lookup-append_right key [] ys h = refl
lookup-append_right key ((k, v) ∷ xs) ys h = ground (arith, lookup-append_right key xs ys)

-- The entries at which the search stops are above the key, or begin with it.
pub Above-stop :
    (key : Text) (rest : Entries)
    → IsSorted (leaves rest)
    → stops_at key rest ≡ true
    → begins_with key rest ≡ false
    → Above key (leaves rest)
unfolding leaves
Above-stop key no_entries s h k = tt
Above-stop key (leaf_node j v rest) (a, s) h k =
    let lt : text_lt key j ≡ true = text_lt_total j key (ground arith) k in
    (lt, Above-trans key j (leaves rest) lt a)
Above-stop key (mst_node l sub rest) s h k = cc

-- The leaves of a subtree are below the key where the search goes on behind it.
pub Below-go :
    (key : Text) (sub rest : Entries)
    → IsSorted (leaves sub ++ leaves rest)
    → IsLeafFirst rest
    → stops_at key rest ≡ false
    → Below key (leaves sub)
unfolding leaves
Below-go key sub no_entries s f h = cc
Below-go key sub (leaf_node j v rest) s f h =
    Below-trans j key (leaves sub) (Below-before (leaves sub) j v (leaves rest) s) (ground arith)
Below-go key sub (mst_node l inner rest) s f h = elim f [ ]

-- The same where they begin with the key.
pub Below-begin :
    (key : Text) (sub rest : Entries)
    → IsSorted (leaves sub ++ leaves rest)
    → begins_with key rest ≡ true
    → Below key (leaves sub)
unfolding leaves
Below-begin key sub no_entries s h = cc
Below-begin key sub (leaf_node j v rest) s h =
    subst (λ k. Below k (leaves sub)) ((text_eq_iff j key).0 h)
      (Below-before (leaves sub) j v (leaves rest) s)
Below-begin key sub (mst_node l inner rest) s h = cc
