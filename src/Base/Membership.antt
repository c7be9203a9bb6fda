-- ===== src/Base/Membership.antt =====
-- Membership in lists and dictionaries.
use mathlib.Core.Path.{◌≡◌}
use mathlib.Core.Logic.{◌⊎◌, ◌≢◌, inl, inr}
use mathlib.Core.Option.{some}
use mathlib.Core.List.{List, [], ◌∷◌, ◌++◌, Memᴰ}
use native.Mathlib.Omega.{arith}
use compute_contract_referen.Base.Tests.{Bool-cases}
use compute_contract_referen.Base.Strings.{Text, text_eq, text_eq_iff}
use compute_contract_referen.Base.Dicts.{Dict, lookup}

module _ {ℓ} {A : Type ℓ} {a : A} where
  pub Mem-append_left : (xs ys : List A) → Memᴰ a xs → Memᴰ a (xs ++ ys)
  Mem-append_left [] ys m = elim m [ ]
  Mem-append_left (x ∷ xs) ys (Memᴰ.head e) = Memᴰ.head e
  Mem-append_left (x ∷ xs) ys (Memᴰ.tail m) = Memᴰ.tail (Mem-append_left xs ys m)

  pub Mem-append_right : (xs ys : List A) → Memᴰ a ys → Memᴰ a (xs ++ ys)
  Mem-append_right [] ys m = m
  Mem-append_right (x ∷ xs) ys m = Memᴰ.tail (Mem-append_right xs ys m)

  pub Mem-append_cases : (xs ys : List A) → Memᴰ a (xs ++ ys) → Memᴰ a xs ⊎ Memᴰ a ys
  Mem-append_cases [] ys m = inr m
  Mem-append_cases (x ∷ xs) ys (Memᴰ.head e) = inl (Memᴰ.head e)
  Mem-append_cases (x ∷ xs) ys (Memᴰ.tail m) = elim (Mem-append_cases xs ys m) [
    | inl here ↦ inl (Memᴰ.tail here)
    | inr there ↦ inr there
  ]

  pub Mem-snoc : (xs : List A) {x : A} → Memᴰ a (xs ++ x ∷ []) → Memᴰ a xs ⊎ (a ≡ x)
  Mem-snoc [] (Memᴰ.head e) = inr e
  Mem-snoc [] (Memᴰ.tail m) = elim m [ ]
  Mem-snoc (y ∷ xs) (Memᴰ.head e) = inl (Memᴰ.head e)
  Mem-snoc (y ∷ xs) (Memᴰ.tail m) = elim (Mem-snoc xs m) [
    | inl here ↦ inl (Memᴰ.tail here)
    | inr e ↦ inr e
  ]

  pub Mem-ne-nil : (xs : List A) → Memᴰ a xs → xs ≢ []
  Mem-ne-nil [] m e = elim m [ ]
  Mem-ne-nil (x ∷ xs) m e = cc

pub Mem-lookup {ℓ} :
    {V : Type ℓ} (k : Text) (v : V) (d : Dict V) → lookup k d ≡ some v → Memᴰ (k, v) d
unfolding lookup
Mem-lookup k v [] h = cc
Mem-lookup k v ((j, w) ∷ d) h = elim (Bool-cases (text_eq j k)) [
  | inl same ↦
      let key : j ≡ k = (text_eq_iff j k).0 same in
      let value : w ≡ v = ground arith in Memᴰ.head (ground arith)
  | inr other ↦ Memᴰ.tail (Mem-lookup k v d (ground arith))
]
