-- ===== src/Mst/Inserting.antt =====
-- One list of leaves is another with a key put in at its place.
use compute_contract_referen.Base.{
  arith, refl, ap, sym, subst, ◌≡◌, ◌∙◌, inl, inr, true, Bool-cases, if◌then◌else◌, [], ◌∷◌, ◌++◌,
  Text, text_eq, text_eq_iff, text_lt, lookup, none, some, Dict, All-append, All-left, All-right,
  append_assoc,
}
use compute_contract_referen.Mst.Dividing.{lookup-Above, lookup-Below, lookup-append_right}
use compute_contract_referen.Mst.Ordered.{text_lt_irrefl, Below, Above, IsSorted}

pub record Inserts (key value : Text) (xs ys : Dict Text) : Type 0 where
  pub before : Dict Text
  pub after : Dict Text
  pub without : xs ≡ before ++ after
  pub with_key : ys ≡ before ++ (key, value) ∷ after
  pub below : Below key before
  pub above : Above key after

module _ (key value : Text) where
  pub Inserts-behind :
      (ps xs ys : Dict Text)
      → Below key ps
      → Inserts key value xs ys
      → Inserts key value (ps ++ xs) (ps ++ ys)
  Inserts-behind ps xs ys b i = record {
    before = ps ++ i.before;
    after = i.after;
    without = ap (λ d. ps ++ d) i.without ∙ sym (append_assoc ps i.before i.after);
    with_key =
        ap (λ d. ps ++ d) i.with_key ∙ sym (append_assoc ps i.before ((key, value) ∷ i.after));
    below = All-append _ ps i.before b i.below;
    above = i.above;
  }

  pub Inserts-ahead :
      (xs ys qs : Dict Text)
      → Above key qs
      → Inserts key value xs ys
      → Inserts key value (xs ++ qs) (ys ++ qs)
  Inserts-ahead xs ys qs a i = record {
    before = i.before;
    after = i.after ++ qs;
    without = ap (λ d. d ++ qs) i.without ∙ append_assoc i.before i.after qs;
    with_key = ap (λ d. d ++ qs) i.with_key ∙ append_assoc i.before ((key, value) ∷ i.after) qs;
    below = i.below;
    above = All-append _ i.after qs i.above a;
  }

  pub Inserts-between :
      (ps qs : Dict Text)
      → Below key ps
      → Above key qs
      → Inserts key value (ps ++ qs) (ps ++ (key, value) ∷ qs)
  Inserts-between ps qs b a = record {
    before = ps;
    after = qs;
    without = refl;
    with_key = refl;
    below = b;
    above = a;
  }

  IsSorted-between :
      (ps qs : Dict Text)
      → Below key ps
      → Above key qs
      → IsSorted (ps ++ qs)
      → IsSorted (ps ++ (key, value) ∷ qs)
  IsSorted-between [] qs b a s = (a, s)
  IsSorted-between ((k, v) ∷ ps) qs (lt, b) a (more, s) =
      let P = λ (e : Text × Text). text_lt k e.0 ≡ true in
      (
        All-append P ps ((key, value) ∷ qs) (All-left P ps qs more) (lt, All-right P ps qs more),
        IsSorted-between ps qs b a s,
      )

  lookup_between :
      (j : Text) (ps qs : Dict Text)
      → Below key ps
      → lookup j (ps ++ (key, value) ∷ qs)
        ≡ (if text_eq key j then some value else lookup j (ps ++ qs))
  unfolding lookup
  lookup_between j [] qs b = refl
  lookup_between j ((k, v) ∷ ps) qs (lt, b) = ground (
    arith,
    lookup_between j ps qs b,
    text_eq_iff k j,
    text_eq_iff key j,
    text_lt_irrefl key,
    text_lt_irrefl j,
  )

  -- Inserting keeps the order.
  pub Inserts-IsSorted : (xs ys : Dict Text) → IsSorted xs → Inserts key value xs ys → IsSorted ys
  Inserts-IsSorted xs ys s i =
      subst IsSorted (sym i.with_key)
        (IsSorted-between i.before i.after i.below i.above (subst IsSorted i.without s))

  -- The key is found, and every other key as before.
  pub lookup-Inserts :
      (xs ys : Dict Text)
      → Inserts key value xs ys
      → (j : Text) → lookup j ys ≡ (if text_eq key j then some value else lookup j xs)
  lookup-Inserts xs ys i j = rw (i.with_key, i.without) (lookup_between j i.before i.after i.below)

  IsSorted-without : (ps qs : Dict Text) → IsSorted (ps ++ (key, value) ∷ qs) → IsSorted (ps ++ qs)
  IsSorted-without [] qs (a, s) = s
  IsSorted-without ((k, v) ∷ ps) qs (more, s) =
      let P = λ (e : Text × Text). text_lt k e.0 ≡ true in
      let (_, after) = All-right P ps ((key, value) ∷ qs) more in
      (All-append P ps qs (All-left P ps ((key, value) ∷ qs) more) after, IsSorted-without ps qs s)

  -- Taking the key out keeps the order.
  pub IsSorted-Inserts : (xs ys : Dict Text) → IsSorted ys → Inserts key value xs ys → IsSorted xs
  IsSorted-Inserts xs ys s i =
      subst IsSorted (sym i.without)
        (IsSorted-without i.before i.after (subst IsSorted i.with_key s))

  -- Without the key, it is not found, and every other key is as with it.
  pub lookup-without :
      (xs ys : Dict Text)
      → Inserts key value xs ys
      → (j : Text) → lookup j xs ≡ (if text_eq key j then none else lookup j ys)
  lookup-without xs ys i j = elim (Bool-cases (text_eq key j)) [
    | inr other ↦ rw (lookup-Inserts xs ys i j, other) refl
    | inl same ↦
        let gone : lookup key xs ≡ none = rw i.without (
          lookup-append_right key i.before i.after (lookup-Below key i.before i.below)
          ∙ lookup-Above key i.after i.above) in
        rw (same, ← (text_eq_iff key j).0 same) gone
  ]
