-- ===== src/Base32/Decoded.antt =====
-- Decoding what the encoder has written, for an alphabet of 32 different symbols.
use compute_contract_referen.Base.{
  arith, refl, ap, ◌≡◌, ◌∙◌, ℕ, zero, suc, ◌+◌, ◌*◌, ◌/◌, ◌%◌, ◌^◌, ◌<◌, Bool, true, false, ◌&&◌,
  ◌==◌, Option-cases, inl, inr, none, some, List, [], ◌∷◌, Text, index_of, ok,
}
use compute_contract_referen.Hex.{at_index}
use compute_contract_referen.Hex.Decoded.{AreBytes}
use compute_contract_referen.Base32.{base32_alphabet, b32, encode_from, encode, decode_from, decode}
use compute_contract_referen.Base32.Steps.{
  IsAlphabet, with_byte, with_symbol, decode_nothing, start_nothing, step_0, step_3, step_1, step_4,
  step_2, end_3, end_1, end_4, end_2,
}

module _ (alphabet : Text) (symbol : IsAlphabet alphabet) where
  mutual
    from_0 :
        (e d : ℕ) (bytes : List ℕ)
        → AreBytes bytes
        → decode_from alphabet d 0 (encode_from alphabet e 0 bytes) ≡ ok bytes
    from_0 e d [] h = rw (start_nothing alphabet symbol e) (decode_nothing alphabet symbol d 0)
    from_0 e d (b ∷ bytes) (small, h) =
        step_0 alphabet symbol e d b bytes small
          (from_3 (with_byte e b) (with_symbol d ((with_byte e b) / 2 ^ 3 % 32)) bytes h)

    from_3 :
        (e d : ℕ) (bytes : List ℕ)
        → AreBytes bytes
        → decode_from alphabet d 5 (encode_from alphabet e 3 bytes)
          ≡ ok ((d % 32 * 8 + e % 8) ∷ bytes)
    from_3 e d [] h = end_3 alphabet symbol e d
    from_3 e d (b ∷ bytes) (small, h) = step_3 alphabet symbol e d b bytes small (
        from_1 (with_byte e b)
          (with_symbol (with_symbol d ((with_byte e b) / 2 ^ 6 % 32))
            ((with_byte e b) / 2 ^ 1 % 32))
          bytes h)

    from_1 :
        (e d : ℕ) (bytes : List ℕ)
        → AreBytes bytes
        → decode_from alphabet d 7 (encode_from alphabet e 1 bytes)
          ≡ ok ((d % 128 * 2 + e % 2) ∷ bytes)
    from_1 e d [] h = end_1 alphabet symbol e d
    from_1 e d (b ∷ bytes) (small, h) =
        step_1 alphabet symbol e d b bytes small
          (from_4 (with_byte e b) (with_symbol d ((with_byte e b) / 2 ^ 4 % 32)) bytes h)

    from_4 :
        (e d : ℕ) (bytes : List ℕ)
        → AreBytes bytes
        → decode_from alphabet d 4 (encode_from alphabet e 4 bytes)
          ≡ ok ((d % 16 * 16 + e % 16) ∷ bytes)
    from_4 e d [] h = end_4 alphabet symbol e d
    from_4 e d (b ∷ bytes) (small, h) = step_4 alphabet symbol e d b bytes small (
        from_2 (with_byte e b)
          (with_symbol (with_symbol d ((with_byte e b) / 2 ^ 7 % 32))
            ((with_byte e b) / 2 ^ 2 % 32))
          bytes h)

    from_2 :
        (e d : ℕ) (bytes : List ℕ)
        → AreBytes bytes
        → decode_from alphabet d 6 (encode_from alphabet e 2 bytes)
          ≡ ok ((d % 64 * 4 + e % 4) ∷ bytes)
    from_2 e d [] h = end_2 alphabet symbol e d
    from_2 e d (b ∷ bytes) (small, h) = step_2 alphabet symbol e d b bytes small (
        from_0 (with_byte e b)
          (with_symbol (with_symbol d ((with_byte e b) / 2 ^ 5 % 32))
            ((with_byte e b) / 2 ^ 0 % 32))
          bytes h)

  pub decode-encode :
      (bytes : List ℕ) → AreBytes bytes → decode alphabet (encode alphabet bytes) ≡ ok bytes
  unfolding decode encode
  decode-encode bytes h = from_0 0 0 bytes h

unfoldable pub at_each : (ℕ → Bool) → ℕ → Bool
at_each test zero = true
at_each test (suc index) = at_each test index && test index

pub at_each_lem :
    (test : ℕ → Bool) (count i : ℕ) → i < count → at_each test count ≡ true → test i ≡ true
unfolding at_each
at_each_lem test (suc count) i in_range passed =
    let before = at_each_lem test count i in ground (arith, before, in_range, passed)
at_each_lem test zero i in_range passed = absurd (omega (arith, in_range))

-- Whether the index has a symbol that is found there.
reads_back : Text → ℕ → Bool
reads_back alphabet i = elim (at_index alphabet i) [
  | [] ↦ false
  | c ∷ rest ↦ elim rest [
    | _ ∷ _ ↦ false
    | [] ↦ elim (index_of alphabet (c ∷ [])) [ none ↦ false | some j ↦ j == i ]
  ]
]

one_symbol :
    (alphabet : Text) (i : ℕ) (found : Text)
    → at_index alphabet i ≡ found
    → reads_back alphabet i ≡ true
    → (c : ℕ) × (at_index alphabet i ≡ c ∷ []) × (index_of alphabet (c ∷ []) ≡ some i)
unfolding reads_back
one_symbol alphabet i [] e h = absurd (ground arith)
one_symbol alphabet i (c ∷ d ∷ rest) e h = absurd (ground arith)
one_symbol alphabet i (c ∷ []) e h = elim (Option-cases (index_of alphabet (c ∷ []))) [
  | inl missed ↦ absurd (ground arith)
  | inr (j, found) ↦ let same : j ≡ i = ground arith in (c, e, found ∙ ap some same)
]

table-IsAlphabet : (alphabet : Text) → at_each (reads_back alphabet) 32 ≡ true → IsAlphabet alphabet
table-IsAlphabet alphabet table i small =
    one_symbol alphabet i (at_index alphabet i) refl
      (at_each_lem (reads_back alphabet) 32 i small table)

pub base32_alphabet-IsAlphabet : IsAlphabet base32_alphabet
unfolding at_each reads_back at_index index_of
base32_alphabet-IsAlphabet = table-IsAlphabet base32_alphabet refl

pub b32-IsAlphabet : IsAlphabet b32
unfolding at_each reads_back at_index index_of
b32-IsAlphabet = table-IsAlphabet b32 refl

-- With the alphabet of bytes.ts and with that of tid.ts, decoding what was encoded of a list of bytes
-- gives the list.
pub base32_round_trip :
    (bytes : List ℕ)
    → AreBytes bytes
    → (decode base32_alphabet (encode base32_alphabet bytes) ≡ ok bytes)
      × (decode b32 (encode b32 bytes) ≡ ok bytes)
base32_round_trip bytes h = (
  decode-encode base32_alphabet base32_alphabet-IsAlphabet bytes h,
  decode-encode b32 b32-IsAlphabet bytes h,
)
