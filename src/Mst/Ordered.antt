-- ===== src/Mst/Ordered.antt =====
-- The order of keys, and trees whose leaves are in it.
use compute_contract_referen.Base.{
  arith, refl, ◌≡◌, inl, inr, true, false, Bool-cases, [], ◌∷◌, ◌++◌, All, Text, text_eq, text_lt,
  Dict,
}
use compute_contract_referen.Mst.{Entries, no_entries, leaf_node, mst_node}

pub text_lt_irrefl : (s : Text) → text_lt s s ≡ false
unfolding text_lt
text_lt_irrefl [] = refl
text_lt_irrefl (c ∷ s) = ground (arith, text_lt_irrefl s)

pub text_lt_trans : (s t u : Text) → text_lt s t ≡ true → text_lt t u ≡ true → text_lt s u ≡ true
unfolding text_lt
text_lt_trans [] [] u h k = cc
text_lt_trans [] (b ∷ t) [] h k = cc
text_lt_trans [] (b ∷ t) (c ∷ u) h k = refl
text_lt_trans (a ∷ s) [] u h k = cc
text_lt_trans (a ∷ s) (b ∷ t) [] h k = cc
text_lt_trans (a ∷ s) (b ∷ t) (c ∷ u) h k = ground (arith, text_lt_trans s t u)

pub text_lt_total : (s t : Text) → text_lt s t ≡ false → text_eq s t ≡ false → text_lt t s ≡ true
unfolding text_lt text_eq
text_lt_total [] [] h k = cc
text_lt_total [] (b ∷ t) h k = cc
text_lt_total (a ∷ s) [] h k = refl
text_lt_total (a ∷ s) (b ∷ t) h k = ground (arith, text_lt_total s t)

pub text_lt_asym : (s t : Text) → text_lt s t ≡ true → text_lt t s ≡ false
text_lt_asym s t h = elim (Bool-cases (text_lt t s)) [
  | inr after ↦ after
  | inl both ↦ absurd (ground (arith, text_lt_irrefl s, text_lt_trans s t s h both))
]

-- The leaves, in order: what the tree stands for.
unfoldable pub leaves : Entries → Dict Text
leaves no_entries = []
leaves (leaf_node k v rest) = (k, v) ∷ leaves rest
leaves (mst_node l sub rest) = leaves sub ++ leaves rest

abbrev pub Below : Text → Dict Text → Type 0
Below key = All (λ e. text_lt e.0 key ≡ true)

abbrev pub Above : Text → Dict Text → Type 0
Above key = All (λ e. text_lt key e.0 ≡ true)

-- Keys go up strictly.
abbrev pub IsSorted : Dict Text → Type 0
IsSorted [] = Unit
IsSorted ((k, v) ∷ d) = Above k d × IsSorted d

abbrev pub IsLeafFirst : Entries → Type 0
IsLeafFirst (mst_node l sub rest) = ⊥
IsLeafFirst _ = Unit

-- No two subtrees stand next to each other.
abbrev pub Alternates : Entries → Type 0
Alternates no_entries = Unit
Alternates (leaf_node k v rest) = Alternates rest
Alternates (mst_node l sub rest) = Alternates sub × IsLeafFirst rest × Alternates rest
