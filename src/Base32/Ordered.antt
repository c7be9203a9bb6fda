-- ===== src/Base32/Ordered.antt =====
-- The order of what the encoder writes, for an alphabet whose symbols are in the order of their code
-- units: lists of bytes of one length are written in their order. Between two bytes the encoders hold
-- what remains of the bytes before, and the lists that are still to come.
use compute_contract_referen.Base.{
  arith, refl, ap, ◌≡◌, ℕ, suc, ◌+◌, ◌*◌, ◌/◌, ◌%◌, ◌^◌, ◌<◌, true, ◌⊎◌, inl, inr, ◌≤◌, List, [],
  ◌∷◌, ◌++◌, ltb, append-nil, Bool-cases, Text, text_lt, subst,
}
use native.Mathlib.Nat.{mul-le-mul_right}
use compute_contract_referen.Hex.{at_index}
use compute_contract_referen.Base32.{encode_from, encode}
use compute_contract_referen.Base32.Steps.{
  IsAlphabet, with_byte, encode_0, encode_1, encode_2, encode_3, encode_4,
}

-- Lists of bytes of one length, the first before the second.
abbrev pub Before : List ℕ → List ℕ → Type 0
Before (b ∷ bs) (c ∷ cs) = (b < c) ⊎ ((b ≡ c) × Before bs cs)
Before _ _ = ⊥

abbrev pub ArePaired : List ℕ → List ℕ → Type 0
ArePaired [] [] = Unit {0}
ArePaired (b ∷ bs) (c ∷ cs) = (b < 256) × (c < 256) × ArePaired bs cs
ArePaired _ _ = ⊥

-- The first is before the second by a number in front of the lists, or by the lists.
abbrev Earlier : ℕ → ℕ → List ℕ → List ℕ → Type 0
Earlier x y bs cs = (x < y) ⊎ ((x ≡ y) × Before bs cs)

-- Each symbol of the alphabet is below those after it.
abbrev pub IsSorted : Text → Type 0
IsSorted alphabet =
    (i j : ℕ)
    → i < j
    → j < 32
    → (s t : Text) → text_lt (at_index alphabet i ++ s) (at_index alphabet j ++ t) ≡ true

-- A byte joins the number in front.
shift_in :
    (x y b c : ℕ) (bs cs : List ℕ)
    → b < 256
    → c < 256
    → Earlier x y (b ∷ bs) (c ∷ cs)
    → Earlier (x * 256 + b) (y * 256 + c) bs cs
shift_in x y b c bs cs small small' (inl h) = inl (omega arith)
shift_in x y b c bs cs small small' (inr (e, inl h)) = inl (omega arith)
shift_in x y b c bs cs small small' (inr (e, inr (e', h))) = inr (omega arith, h)

-- A greater digit outweighs what comes behind it.
outweighed : (p i j : ℕ) → i < j → i * p + p ≤ j * p
outweighed p i j h =
    let product : suc i * p ≤ j * p = mul-le-mul_right p h in omega (arith, product)

digit_order : (p i r j s : ℕ) → r < p → s < p → i * p + r ≤ j * p + s → ¬ j < i
digit_order p i r j s h h' e later = let o = outweighed p j i later in omega (arith, o)

digit_le : (p i r j s : ℕ) → r < p → s < p → i * p + r ≤ j * p + s → i ≤ j
digit_le p i r j s h h' e =
    let not_later = digit_order p i r j s h h' e in ground (arith, not_later)

same_digit : (p i r j s : ℕ) → i ≡ j → i * p + r < j * p + s → r < s
same_digit p i r j s same e =
    let product : i * p ≡ j * p = ap (λ x. x * p) same in omega (arith, product)

same_rest : (p i r j s : ℕ) → i ≡ j → i * p + r ≡ j * p + s → r ≡ s
same_rest p i r j s same e =
    let product : i * p ≡ j * p = ap (λ x. x * p) same in omega (arith, product)

-- A digit leaves it.
digit_out :
    (p i r j s : ℕ) (bs cs : List ℕ)
    → r < p
    → s < p
    → Earlier (i * p + r) (j * p + s) bs cs
    → (i < j) ⊎ ((i ≡ j) × Earlier r s bs cs)
digit_out p i r j s bs cs h h' (inl e) = elim (Bool-cases (ltb i j)) [
  | inl below ↦ inl (ground arith)
  | inr not_below ↦
      let le = digit_le p i r j s h h' (omega (arith, e)) in
      let same : i ≡ j = ground (arith, not_below, le) in
      inr (same, inl (same_digit p i r j s same e))
]
digit_out p i r j s bs cs h h' (inr (e, later)) =
    let le = digit_le p i r j s h h' (omega (arith, e)) in
    let ge = digit_le p j s i r h' h (omega (arith, e)) in
    let same : i ≡ j = omega (arith, le, ge) in inr (same, inr (same_rest p i r j s same e, later))

module _ (alphabet : Text) (symbol : IsAlphabet alphabet) (sorted : IsSorted alphabet) where
  -- Two strings from their first symbols.
  from_symbols :
      (i j : ℕ) (s t : Text)
      → j < 32
      → (i < j) ⊎ ((i ≡ j) × (text_lt s t ≡ true))
      → text_lt (at_index alphabet i ++ s) (at_index alphabet j ++ t) ≡ true
  from_symbols i j s t small (inl h) = sorted i j h small s t
  from_symbols i j s t small (inr (e, h)) =
      let (c, at_j, found) = symbol j small in rw (e, at_j) (unfold text_lt in ground (arith, h))

  -- The digits of two numbers, as symbols, in front of strings that come in the order of what is left.
  one_symbol :
      (p x i r y j q : ℕ) (bs cs : List ℕ) (s t : Text)
      → r < p
      → q < p
      → j < 32
      → x ≡ i * p + r
      → y ≡ j * p + q
      → Earlier x y bs cs
      → (Earlier r q bs cs → text_lt s t ≡ true)
      → text_lt (at_index alphabet i ++ s) (at_index alphabet j ++ t) ≡ true
  one_symbol p x i r y j q bs cs s t h h' small e e' earlier rest =
      elim (digit_out p i r j q bs cs h h'
        (subst (λ z. Earlier z (j * p + q) bs cs) e (subst (λ z. Earlier x z bs cs) e' earlier))) [
          | inl below ↦ from_symbols i j s t small (inl below)
          | inr (same, later) ↦ from_symbols i j s t small (inr (same, rest later))
        ]

  last_symbol :
      (i j : ℕ) → i < j → j < 32 → text_lt (at_index alphabet i) (at_index alphabet j) ≡ true
  last_symbol i j h small =
      rw (← append-nil (at_index alphabet i), ← append-nil (at_index alphabet j))
        (sorted i j h small [] [])

  ends_3 :
      (e f : ℕ)
      → e % 2 ^ 3 < f % 2 ^ 3
      → text_lt (encode_from alphabet e 3 []) (encode_from alphabet f 3 []) ≡ true
  unfolding encode_from
  ends_3 e f less = last_symbol (e * 2 ^ 2 % 32) (f * 2 ^ 2 % 32) (omega arith) (omega arith)

  ends_1 :
      (e f : ℕ)
      → e % 2 ^ 1 < f % 2 ^ 1
      → text_lt (encode_from alphabet e 1 []) (encode_from alphabet f 1 []) ≡ true
  unfolding encode_from
  ends_1 e f less = last_symbol (e * 2 ^ 4 % 32) (f * 2 ^ 4 % 32) (omega arith) (omega arith)

  ends_4 :
      (e f : ℕ)
      → e % 2 ^ 4 < f % 2 ^ 4
      → text_lt (encode_from alphabet e 4 []) (encode_from alphabet f 4 []) ≡ true
  unfolding encode_from
  ends_4 e f less = last_symbol (e * 2 ^ 1 % 32) (f * 2 ^ 1 % 32) (omega arith) (omega arith)

  ends_2 :
      (e f : ℕ)
      → e % 2 ^ 2 < f % 2 ^ 2
      → text_lt (encode_from alphabet e 2 []) (encode_from alphabet f 2 []) ≡ true
  unfolding encode_from
  ends_2 e f less = last_symbol (e * 2 ^ 3 % 32) (f * 2 ^ 3 % 32) (omega arith) (omega arith)

  mutual
    in_order_0 :
        (e f : ℕ) (bs cs : List ℕ)
        → ArePaired bs cs
        → Earlier (e % 2 ^ 0) (f % 2 ^ 0) bs cs
        → text_lt (encode_from alphabet e 0 bs) (encode_from alphabet f 0 cs) ≡ true
    in_order_0 e f [] [] h (inl less) = absurd (omega arith)
    in_order_0 e f [] [] h (inr (e', before)) = absurd before
    in_order_0 e f [] (c ∷ cs) h earlier = absurd h
    in_order_0 e f (b ∷ bs) [] h earlier = absurd h
    in_order_0 e f (b ∷ bs) (c ∷ cs) (small, small', h) earlier =
        rw (encode_0 alphabet symbol e b bs, encode_0 alphabet symbol f c cs)
          (one_symbol (2 ^ 3) (e % 2 ^ 0 * 256 + b) ((with_byte e b) / 2 ^ 3 % 32)
            ((with_byte e b) % 2 ^ 3) (f % 2 ^ 0 * 256 + c) ((with_byte f c) / 2 ^ 3 % 32)
            ((with_byte f c) % 2 ^ 3) bs cs (encode_from alphabet (with_byte e b) 3 bs)
            (encode_from alphabet (with_byte f c) 3 cs) (omega arith) (omega arith) (omega arith)
            (omega arith) (omega arith)
            (shift_in (e % 2 ^ 0) (f % 2 ^ 0) b c bs cs small small' earlier)
            (in_order_3 (with_byte e b) (with_byte f c) bs cs h))

    in_order_3 :
        (e f : ℕ) (bs cs : List ℕ)
        → ArePaired bs cs
        → Earlier (e % 2 ^ 3) (f % 2 ^ 3) bs cs
        → text_lt (encode_from alphabet e 3 bs) (encode_from alphabet f 3 cs) ≡ true
    in_order_3 e f [] [] h (inl less) = ends_3 e f less
    in_order_3 e f [] [] h (inr (e', before)) = absurd before
    in_order_3 e f [] (c ∷ cs) h earlier = absurd h
    in_order_3 e f (b ∷ bs) [] h earlier = absurd h
    in_order_3 e f (b ∷ bs) (c ∷ cs) (small, small', h) earlier =
        rw (encode_3 alphabet symbol e b bs, encode_3 alphabet symbol f c cs)
          (one_symbol (2 ^ 6) (e % 2 ^ 3 * 256 + b) ((with_byte e b) / 2 ^ 6 % 32)
            ((with_byte e b) % 2 ^ 6) (f % 2 ^ 3 * 256 + c) ((with_byte f c) / 2 ^ 6 % 32)
            ((with_byte f c) % 2 ^ 6) bs cs
            (at_index alphabet ((with_byte e b) / 2 ^ 1 % 32)
              ++ (encode_from alphabet (with_byte e b) 1 bs))
            (at_index alphabet ((with_byte f c) / 2 ^ 1 % 32)
              ++ (encode_from alphabet (with_byte f c) 1 cs))
            (omega arith) (omega arith) (omega arith) (omega arith) (omega arith)
            (shift_in (e % 2 ^ 3) (f % 2 ^ 3) b c bs cs small small' earlier)
            (λ later.
              (one_symbol (2 ^ 1) ((with_byte e b) % 2 ^ 6) ((with_byte e b) / 2 ^ 1 % 32)
                ((with_byte e b) % 2 ^ 1) ((with_byte f c) % 2 ^ 6) ((with_byte f c) / 2 ^ 1 % 32)
                ((with_byte f c) % 2 ^ 1) bs cs (encode_from alphabet (with_byte e b) 1 bs)
                (encode_from alphabet (with_byte f c) 1 cs) (omega arith) (omega arith)
                (omega arith) (omega arith) (omega arith) later
                (in_order_1 (with_byte e b) (with_byte f c) bs cs h))))

    in_order_1 :
        (e f : ℕ) (bs cs : List ℕ)
        → ArePaired bs cs
        → Earlier (e % 2 ^ 1) (f % 2 ^ 1) bs cs
        → text_lt (encode_from alphabet e 1 bs) (encode_from alphabet f 1 cs) ≡ true
    in_order_1 e f [] [] h (inl less) = ends_1 e f less
    in_order_1 e f [] [] h (inr (e', before)) = absurd before
    in_order_1 e f [] (c ∷ cs) h earlier = absurd h
    in_order_1 e f (b ∷ bs) [] h earlier = absurd h
    in_order_1 e f (b ∷ bs) (c ∷ cs) (small, small', h) earlier =
        rw (encode_1 alphabet symbol e b bs, encode_1 alphabet symbol f c cs)
          (one_symbol (2 ^ 4) (e % 2 ^ 1 * 256 + b) ((with_byte e b) / 2 ^ 4 % 32)
            ((with_byte e b) % 2 ^ 4) (f % 2 ^ 1 * 256 + c) ((with_byte f c) / 2 ^ 4 % 32)
            ((with_byte f c) % 2 ^ 4) bs cs (encode_from alphabet (with_byte e b) 4 bs)
            (encode_from alphabet (with_byte f c) 4 cs) (omega arith) (omega arith) (omega arith)
            (omega arith) (omega arith)
            (shift_in (e % 2 ^ 1) (f % 2 ^ 1) b c bs cs small small' earlier)
            (in_order_4 (with_byte e b) (with_byte f c) bs cs h))

    in_order_4 :
        (e f : ℕ) (bs cs : List ℕ)
        → ArePaired bs cs
        → Earlier (e % 2 ^ 4) (f % 2 ^ 4) bs cs
        → text_lt (encode_from alphabet e 4 bs) (encode_from alphabet f 4 cs) ≡ true
    in_order_4 e f [] [] h (inl less) = ends_4 e f less
    in_order_4 e f [] [] h (inr (e', before)) = absurd before
    in_order_4 e f [] (c ∷ cs) h earlier = absurd h
    in_order_4 e f (b ∷ bs) [] h earlier = absurd h
    in_order_4 e f (b ∷ bs) (c ∷ cs) (small, small', h) earlier =
        rw (encode_4 alphabet symbol e b bs, encode_4 alphabet symbol f c cs)
          (one_symbol (2 ^ 7) (e % 2 ^ 4 * 256 + b) ((with_byte e b) / 2 ^ 7 % 32)
            ((with_byte e b) % 2 ^ 7) (f % 2 ^ 4 * 256 + c) ((with_byte f c) / 2 ^ 7 % 32)
            ((with_byte f c) % 2 ^ 7) bs cs
            (at_index alphabet ((with_byte e b) / 2 ^ 2 % 32)
              ++ (encode_from alphabet (with_byte e b) 2 bs))
            (at_index alphabet ((with_byte f c) / 2 ^ 2 % 32)
              ++ (encode_from alphabet (with_byte f c) 2 cs))
            (omega arith) (omega arith) (omega arith) (omega arith) (omega arith)
            (shift_in (e % 2 ^ 4) (f % 2 ^ 4) b c bs cs small small' earlier)
            (λ later.
              (one_symbol (2 ^ 2) ((with_byte e b) % 2 ^ 7) ((with_byte e b) / 2 ^ 2 % 32)
                ((with_byte e b) % 2 ^ 2) ((with_byte f c) % 2 ^ 7) ((with_byte f c) / 2 ^ 2 % 32)
                ((with_byte f c) % 2 ^ 2) bs cs (encode_from alphabet (with_byte e b) 2 bs)
                (encode_from alphabet (with_byte f c) 2 cs) (omega arith) (omega arith)
                (omega arith) (omega arith) (omega arith) later
                (in_order_2 (with_byte e b) (with_byte f c) bs cs h))))

    in_order_2 :
        (e f : ℕ) (bs cs : List ℕ)
        → ArePaired bs cs
        → Earlier (e % 2 ^ 2) (f % 2 ^ 2) bs cs
        → text_lt (encode_from alphabet e 2 bs) (encode_from alphabet f 2 cs) ≡ true
    in_order_2 e f [] [] h (inl less) = ends_2 e f less
    in_order_2 e f [] [] h (inr (e', before)) = absurd before
    in_order_2 e f [] (c ∷ cs) h earlier = absurd h
    in_order_2 e f (b ∷ bs) [] h earlier = absurd h
    in_order_2 e f (b ∷ bs) (c ∷ cs) (small, small', h) earlier =
        rw (encode_2 alphabet symbol e b bs, encode_2 alphabet symbol f c cs)
          (one_symbol (2 ^ 5) (e % 2 ^ 2 * 256 + b) ((with_byte e b) / 2 ^ 5 % 32)
            ((with_byte e b) % 2 ^ 5) (f % 2 ^ 2 * 256 + c) ((with_byte f c) / 2 ^ 5 % 32)
            ((with_byte f c) % 2 ^ 5) bs cs
            (at_index alphabet ((with_byte e b) / 2 ^ 0 % 32)
              ++ (encode_from alphabet (with_byte e b) 0 bs))
            (at_index alphabet ((with_byte f c) / 2 ^ 0 % 32)
              ++ (encode_from alphabet (with_byte f c) 0 cs))
            (omega arith) (omega arith) (omega arith) (omega arith) (omega arith)
            (shift_in (e % 2 ^ 2) (f % 2 ^ 2) b c bs cs small small' earlier)
            (λ later.
              (one_symbol (2 ^ 0) ((with_byte e b) % 2 ^ 5) ((with_byte e b) / 2 ^ 0 % 32)
                ((with_byte e b) % 2 ^ 0) ((with_byte f c) % 2 ^ 5) ((with_byte f c) / 2 ^ 0 % 32)
                ((with_byte f c) % 2 ^ 0) bs cs (encode_from alphabet (with_byte e b) 0 bs)
                (encode_from alphabet (with_byte f c) 0 cs) (omega arith) (omega arith)
                (omega arith) (omega arith) (omega arith) later
                (in_order_0 (with_byte e b) (with_byte f c) bs cs h))))

  -- Lists of bytes of one length are written in their order.
  pub encode_order :
      (bs cs : List ℕ)
      → ArePaired bs cs
      → Before bs cs
      → text_lt (encode alphabet bs) (encode alphabet cs) ≡ true
  unfolding encode
  encode_order bs cs h before = in_order_0 0 0 bs cs h (inr (refl, before))
