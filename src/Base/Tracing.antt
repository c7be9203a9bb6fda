-- ===== src/Base/Tracing.antt =====
-- Code that may throw and makes requests: its result, and the requests that it made, in order.
use mathlib.Core.Path.{◌≡◌, refl}
use mathlib.Core.List.{List, [], ◌++◌}
use native.Mathlib.Omega.{arith}
use compute_contract_referen.Base.Fallible.{Result, ok, err}
use compute_contract_referen.Base.Lists.{All, All-append}

abbrev pub Traced : Type 0 → Type 0 → Type 0 → Type 0
Traced Q E A = Result E A × List Q

module _ {Q E A B : Type 0} where
  abbrev pub continue : Result E A → List Q → (A → Traced Q E B) → Traced Q E B
  continue (ok a) made f = ((f a).0, made ++ (f a).1)
  continue (err e) made f = (err e, made)

  -- One step, and the rest of the code behind it.
  abbrev pub and_then : Traced Q E A → (A → Traced Q E B) → Traced Q E B
  and_then m f = continue m.0 m.1 f

  pub and_then_ok :
      (m : Traced Q E A) (f : A → Traced Q E B) (b : B)
      → (and_then m f).0 ≡ ok b
      → (a : A) × (m.0 ≡ ok a) × ((f a).0 ≡ ok b)
  and_then_ok (ok a, made) f b h = (a, refl, h)
  and_then_ok (err e, made) f b h = cc

  pub and_then_at :
      (m : Traced Q E A) (f : A → Traced Q E B) (a : A) → m.0 ≡ ok a → (and_then m f).0 ≡ (f a).0
  and_then_at (ok b, made) f a h = ground arith
  and_then_at (err d, made) f a h = cc

  pub and_then_err :
      (m : Traced Q E A) (f : A → Traced Q E B) (e : E) → m.0 ≡ err e → and_then m f ≡ (err e, m.1)
  and_then_err (ok a, made) f e h = cc
  and_then_err (err d, made) f e h = ground arith

  pub and_then-All :
      (P : Q → Type 0) (m : Traced Q E A) (f : A → Traced Q E B)
      → All P m.1
      → ((a : A) → m.0 ≡ ok a → All P (f a).1)
      → All P (and_then m f).1
  and_then-All P (ok a, made) f h k = All-append P made (f a).1 h (k a refl)
  and_then-All P (err e, made) f h k = h

-- A step that makes no request.
abbrev pub pure : {Q E A : Type 0} → Result E A → Traced Q E A
pure r = (r, [])
