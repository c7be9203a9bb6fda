-- ===== src/Base/Search.antt =====
-- What `startsWith`, `endsWith` and `indexOf` find in a string.
use Prim.Native.Nat.{ℕ, zero, suc, ◌+◌, ◌-◌, ◌≤◌}
use mathlib.Core.Path.{◌≡◌, refl, ap}
use mathlib.Core.Logic.{inl, inr}
use mathlib.Core.Bool.{true}
use mathlib.Core.Option.{some}
use mathlib.Core.List.{List, [], ◌∷◌, ◌++◌, append_assoc}
use native.Mathlib.Omega.{arith}
use compute_contract_referen.Base.Tests.{Bool-cases, Option-cases}
use compute_contract_referen.Base.Lists.{length, take, drop, length-append}
use compute_contract_referen.Base.Strings.{Text, text_eq_iff, starts_with, ends_with, index_of}

module _ {ℓ} {A : Type ℓ} where
  pub take-append-drop : (n : ℕ) (xs : List A) → take n xs ++ drop n xs ≡ xs
  take-append-drop zero xs = refl
  take-append-drop (suc n) [] = refl
  take-append-drop (suc n) (x ∷ xs) = ap (λ l. x ∷ l) (take-append-drop n xs)

  pub drop-append_le :
      (n : ℕ) (xs ys : List A) → n ≤ length xs → drop n (xs ++ ys) ≡ drop n xs ++ ys
  drop-append_le zero xs ys h = refl
  drop-append_le (suc n) [] ys h = absurd (omega arith)
  drop-append_le (suc n) (x ∷ xs) ys h = drop-append_le n xs ys (omega arith)

  pub drop-append_self : (n : ℕ) (xs ys : List A) → n ≡ length xs → drop n (xs ++ ys) ≡ ys
  drop-append_self zero [] ys h = refl
  drop-append_self zero (x ∷ xs) ys h = absurd (omega arith)
  drop-append_self (suc n) [] ys h = absurd (omega arith)
  drop-append_self (suc n) (x ∷ xs) ys h = drop-append_self n xs ys (omega arith)

pub starts_with_split : (s p : Text) → starts_with s p ≡ true → s ≡ p ++ drop (length p) s
unfolding starts_with
starts_with_split s [] h = refl
starts_with_split [] (b ∷ p) h = cc
starts_with_split (a ∷ s) (b ∷ p) h = ground (arith, starts_with_split s p)

pub starts_with-append : (p r : Text) → starts_with (p ++ r) p ≡ true
unfolding starts_with
starts_with-append [] r = refl
starts_with-append (a ∷ p) r = ground (arith, starts_with-append p r)

pub ends_with_split : (s p : Text) → ends_with s p ≡ true → (x : Text) × (s ≡ x ++ p)
unfolding ends_with
ends_with_split s p h = (
  take (length s - length p) s,
  ground (
    arith,
    take-append-drop (length s - length p) s,
    text_eq_iff (drop (length s - length p) s) p,
  ),
)

pub ends_with-append : (x p : Text) → ends_with (x ++ p) p ≡ true
unfolding ends_with
ends_with-append x p = ground (
  arith,
  length-append x p,
  drop-append_self (length (x ++ p) - length p) x p,
  text_eq_iff (drop (length (x ++ p) - length p) (x ++ p)) p,
)

index_of_zero : (s p : Text) → starts_with s p ≡ true → index_of s p ≡ some 0
unfolding index_of
index_of_zero [] p h = rw h
index_of_zero (c ∷ s) p h = rw h

-- `slice` after a found occurrence leaves what follows it.
pub index_of_sound :
    (s p : Text) (i : ℕ)
    → index_of s p ≡ some i
    → (x : Text) × (s ≡ x ++ (p ++ drop (i + length p) s))
unfolding index_of
index_of_sound [] p i h = ([], ground (arith, starts_with_split [] p))
index_of_sound (c ∷ s) p i h = elim (Bool-cases (starts_with (c ∷ s) p)) [
  | inl found ↦ ([], ground (arith, starts_with_split (c ∷ s) p))
  | inr later ↦ elim (Option-cases (index_of s p)) [
    | inl missed ↦ absurd (ground arith)
    | inr (j, e) ↦
        let (x, split) = index_of_sound s p j e in
        let at_j : i ≡ suc j = ground arith in
        let step : suc j + length p ≡ suc (j + length p) = omega arith in
        (c ∷ x, rw at_j (rw step (ap (λ l. c ∷ l) split)))
  ]
]

-- The first occurrence stands no later than any other.
pub index_of_first :
    (x p r : Text)
    → (i : ℕ) × (z : Text) × (index_of (x ++ (p ++ r)) p ≡ some i)
      × (drop (i + length p) (x ++ (p ++ r)) ≡ z ++ r)
unfolding index_of
index_of_first [] p r = (
  0,
  [],
  index_of_zero (p ++ r) p (starts_with-append p r),
  drop-append_self (0 + length p) p r (omega arith),
)
index_of_first (c ∷ x) p r = elim (Bool-cases (starts_with (c ∷ (x ++ (p ++ r))) p)) [
  | inl found ↦ (
    0,
    drop (length p) ((c ∷ x) ++ p),
    index_of_zero (c ∷ (x ++ (p ++ r))) p found,
    ground
        (arith, drop-append_le (length p) ((c ∷ x) ++ p) r, length-append x p, append_assoc x p r),
  )
  | inr later ↦
      let (i, z, e, tail) = index_of_first x p r in
      let step : suc i + length p ≡ suc (i + length p) = omega arith in
      (suc i, z, ground arith, rw step tail)
]
