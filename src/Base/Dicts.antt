-- ===== src/Base/Dicts.antt =====
-- A JavaScript object or Map with string keys, as its entries in insertion order.
use mathlib.Core.Path.{◌≡◌, refl}
use mathlib.Core.Bool.{Bool, true, false}
use mathlib.Core.Logic.{inl, inr}
use mathlib.Core.Option.{Option, none, some}
use mathlib.Core.List.{List, [], ◌∷◌}
use native.Mathlib.Omega.{arith}
use compute_contract_referen.Base.Tests.{if◌then◌else◌, Bool-cases}
use compute_contract_referen.Base.Strings.{Text, text_eq, text_eq_iff, text_eq_refl}

abbrev pub Dict {ℓ} : Type ℓ → Type ℓ
Dict V = List (Text × V)

module _ {ℓ} {V : Type ℓ} where
  -- `d[k]`, `d.get(k)`
  unfoldable pub lookup : Text → Dict V → Option V
  lookup k [] = none
  lookup k ((j, v) ∷ d) = if text_eq j k then some v else lookup k d

  -- `d.has(k)`
  unfoldable pub has : Text → Dict V → Bool
  has k [] = false
  has k ((j, v) ∷ d) = if text_eq j k then true else has k d

  -- `d[k] = v`, `d.set(k, v)`: a key that is there keeps its place.
  unfoldable pub put : Text → V → Dict V → Dict V
  put k v [] = (k, v) ∷ []
  put k v ((j, w) ∷ d) = let rest = put k v d in if text_eq j k then (j, v) ∷ d else (j, w) ∷ rest

  -- `d.delete(k)`
  unfoldable pub delete : Text → Dict V → Dict V
  delete k [] = []
  delete k ((j, w) ∷ d) = let rest = delete k d in if text_eq j k then rest else (j, w) ∷ rest

  pub lookup-put :
      (k j : Text) (v : V) (d : Dict V)
      → lookup j (put k v d) ≡ (if text_eq k j then some v else lookup j d)
  unfolding lookup put
  lookup-put k j v [] = refl
  lookup-put k j v ((i, w) ∷ d) =
      ground (arith, text_eq_iff k j, text_eq_iff i k, text_eq_iff i j, lookup-put k j v d)

  pub lookup-delete :
      (k j : Text) (d : Dict V) → lookup j (delete k d) ≡ (if text_eq k j then none else lookup j d)
  unfolding lookup delete
  lookup-delete k j [] = ground arith
  lookup-delete k j ((i, w) ∷ d) =
      ground (arith, text_eq_iff k j, text_eq_iff i k, text_eq_iff i j, lookup-delete k j d)

  pub has-lookup :
      (k : Text) (d : Dict V) → has k d ≡ elim (lookup k d) [ none ↦ false | some _ ↦ true ]
  unfolding has lookup
  has-lookup k [] = refl
  has-lookup k ((j, v) ∷ d) = ground (arith, has-lookup k d)

  -- `Object.values(d)`
  abbrev pub values : Dict V → List V
  values [] = []
  values ((k, v) ∷ d) = v ∷ values d

-- No key stands twice: what a Map is, and what `put` and `delete` keep.
module _ {ℓ} {V : Type ℓ} where
  abbrev pub Unique : Dict V → Type 0
  Unique [] = Unit
  Unique ((k, v) ∷ d) = (has k d ≡ false) × Unique d

  pub has-put :
      (k j : Text) (v : V) (d : Dict V)
      → has j (put k v d) ≡ (if text_eq k j then true else has j d)
  unfolding has put
  has-put k j v [] = refl
  has-put k j v ((i, w) ∷ d) =
      ground (arith, text_eq_iff k j, text_eq_iff i k, text_eq_iff i j, has-put k j v d)

  pub has-delete :
      (k j : Text) (d : Dict V) → has j (delete k d) ≡ (if text_eq k j then false else has j d)
  unfolding has delete
  has-delete k j [] = ground arith
  has-delete k j ((i, w) ∷ d) =
      ground (arith, text_eq_iff k j, text_eq_iff i k, text_eq_iff i j, has-delete k j d)

  pub delete_absent : (k : Text) (d : Dict V) → has k d ≡ false → delete k d ≡ d
  unfolding has delete
  delete_absent k [] h = refl
  delete_absent k ((j, v) ∷ d) h = ground (arith, delete_absent k d)

  pub Unique-put : (k : Text) (v : V) (d : Dict V) → Unique d → Unique (put k v d)
  unfolding put has
  Unique-put k v [] u = (refl, tt)
  Unique-put k v ((j, w) ∷ d) (new, u) = elim (Bool-cases (text_eq j k)) [
    | inl same ↦ rw same (new, u)
    | inr other ↦
        rw other
          (ground (arith, has-put k j v d, text_eq_iff j k, text_eq_iff k j), Unique-put k v d u)
  ]

  pub Unique-delete : (k : Text) (d : Dict V) → Unique d → Unique (delete k d)
  unfolding delete
  Unique-delete k [] u = tt
  Unique-delete k ((j, w) ∷ d) (new, u) = elim (Bool-cases (text_eq j k)) [
    | inl same ↦ rw same (Unique-delete k d u)
    | inr other ↦ rw other (ground (arith, has-delete k j d), Unique-delete k d u)
  ]

  pub lookup_absent : (k : Text) (d : Dict V) → has k d ≡ false → lookup k d ≡ none
  unfolding has lookup
  lookup_absent k [] h = refl
  lookup_absent k ((j, v) ∷ d) h = ground (arith, lookup_absent k d)

  pub lookup-put_self : (k : Text) (v : V) (d : Dict V) → lookup k (put k v d) ≡ some v
  lookup-put_self k v d = simp (lookup-put, text_eq_refl)
