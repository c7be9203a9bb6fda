-- ===== src/Base/Strings.antt =====
-- A JavaScript string as the list of its code units:
-- comparison, `startsWith`, `endsWith`, `indexOf`, `split` and `slice` of JavaScript strings.
use Prim.Native.Nat.{ℕ, suc, ◌-◌}
use Prim.Native.Char.{code}
use Prim.Native.String.{String}
use mathlib.Core.Path.{◌≡◌, refl, sym}
use mathlib.Core.Logic.{◌↔◌, inl, inr}
use mathlib.Core.Bool.{Bool, true, false, ◌&&◌, ◌||◌}
use mathlib.Core.Option.{Option, none, some}
use mathlib.Core.Option
use mathlib.Core.List.{List, [], ◌∷◌, Memᴰ}
use native.Mathlib.Omega.{arith}
use compute_contract_referen.Base.Tests.{Bool-cases, ◌==◌, leb, ltb, if◌then◌else◌}
use compute_contract_referen.Base.Lists.{length, drop}

abbrev pub Text : Type 0
Text = List ℕ

-- The code units of an ASCII literal.
abbrev pub codes : String → Text
codes String.[] = []
codes (String.◌∷◌ c s) = code c ∷ codes s

-- `s === t`
unfoldable pub text_eq : Text → Text → Bool
text_eq [] [] = true
text_eq [] (_ ∷ _) = false
text_eq (_ ∷ _) [] = false
text_eq (a ∷ s) (b ∷ t) = a == b && text_eq s t

pub text_eq_iff : (s t : Text) → (text_eq s t ≡ true) ↔ (s ≡ t)
unfolding text_eq
text_eq_iff [] [] = (λ _. refl, λ _. refl)
text_eq_iff [] (b ∷ t) = ground arith
text_eq_iff (a ∷ s) [] = ground arith
text_eq_iff (a ∷ s) (b ∷ t) = ground (arith, text_eq_iff s t)

pub text_eq_refl : (s : Text) → text_eq s s ≡ true
text_eq_refl s = (text_eq_iff s s).1 refl

-- `s < t`, by code units
unfoldable pub text_lt : Text → Text → Bool
text_lt [] [] = false
text_lt [] (_ ∷ _) = true
text_lt (_ ∷ _) [] = false
text_lt (a ∷ s) (b ∷ t) = if a == b then text_lt s t else ltb a b

-- `s.startsWith(p)`
unfoldable pub starts_with : Text → Text → Bool
starts_with s [] = true
starts_with [] (_ ∷ _) = false
starts_with (a ∷ s) (b ∷ p) = a == b && starts_with s p

-- `s.endsWith(p)`
unfoldable pub ends_with : Text → Text → Bool
unfolding text_eq
ends_with s p = leb (length p) (length s) && text_eq (drop (length s - length p) s) p

-- `s.indexOf(p)`, with `none` for -1
unfoldable pub index_of : Text → Text → Option ℕ
unfolding starts_with
index_of [] p = if starts_with [] p then some 0 else none
index_of (c ∷ s) p = if starts_with (c ∷ s) p then some 0 else Option.map suc (index_of s p)

-- A character in front of the first part.
push_head : ℕ → List Text → List Text
push_head d [] = (d ∷ []) ∷ []
push_head d (p ∷ ps) = (d ∷ p) ∷ ps

-- `s.split(c)` for a separator of one code unit
unfoldable pub split_on : ℕ → Text → List Text
unfolding push_head
split_on c [] = [] ∷ []
split_on c (d ∷ s) = let rest = split_on c s in if d == c then [] ∷ rest else push_head d rest

-- `l.includes(t)`
unfoldable pub includes : List Text → Text → Bool
unfolding text_eq
includes [] t = false
includes (s ∷ l) t = text_eq s t || includes l t

pub Mem-includes : (l : List Text) (t : Text) → includes l t ≡ true → Memᴰ t l
unfolding includes
Mem-includes [] t h = cc
Mem-includes (s ∷ l) t h = elim (Bool-cases (text_eq s t)) [
  | inl same ↦ Memᴰ.head (sym ((text_eq_iff s t).0 same))
  | inr other ↦ Memᴰ.tail (Mem-includes l t (rw other at h))
]

pub includes-Mem : (l : List Text) (t : Text) → Memᴰ t l → includes l t ≡ true
unfolding includes
includes-Mem [] t m = elim m [ ]
includes-Mem (s ∷ l) t (Memᴰ.head e) = rw ((text_eq_iff s t).1 (sym e))
includes-Mem (s ∷ l) t (Memᴰ.tail m) = ground (arith, includes-Mem l t m)
