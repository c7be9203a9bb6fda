-- ===== src/Base32/Steps.antt =====
-- One byte through the encoder and the decoder, for an alphabet of 32 different symbols. Between two
-- bytes the encoder holds 0, 3, 1, 4 or 2 bits, and the decoder what is missing of a byte.
use compute_contract_referen.Base.{
  arith, refl, ap, ◌≡◌, ℕ, ◌+◌, ◌-◌, ◌*◌, ◌/◌, ◌%◌, ◌^◌, ◌<◌, some, List, [], ◌∷◌, ◌++◌, leb,
  if◌then◌else◌, append-nil, append_assoc, Text, index_of, Result, ok, ◌>>=◌,
}
use compute_contract_referen.Hex.{at_index}
use compute_contract_referen.Base32.{Base32Error, symbols, left_bits, encode_from, decode_from}

-- Each of the 32 indices has a symbol, which is found at that index.
abbrev pub IsAlphabet : Text → Type 0
IsAlphabet alphabet =
    (i : ℕ)
    → i < 32
    → (c : ℕ) × (at_index alphabet i ≡ c ∷ []) × (index_of alphabet (c ∷ []) ≡ some i)

-- `value` when a byte, and when a symbol, has come in.
abbrev pub with_byte : ℕ → ℕ → ℕ
with_byte value b = (value * 256 + b) % 2 ^ 32

abbrev pub with_symbol : ℕ → ℕ → ℕ
with_symbol value i = (value * 32 + i) % 2 ^ 32

ok_head :
    {a c : ℕ} {bytes : List ℕ}
    → a ≡ c
    → ◌≡◌ {A = Result Base32Error (List ℕ)} (ok (a ∷ bytes)) (ok (c ∷ bytes))
ok_head {bytes = bytes} e = ap (λ x. ok (x ∷ bytes)) e

ok_pair :
    {a b c d : ℕ} {bytes : List ℕ}
    → a ≡ c
    → b ≡ d
    → ◌≡◌ {A = Result Base32Error (List ℕ)} (ok (a ∷ b ∷ bytes)) (ok (c ∷ d ∷ bytes))
ok_pair e f = rw (e, f) refl

module _ (alphabet : Text) (symbol : IsAlphabet alphabet) where
  -- The decoder at a symbol.
  decode_symbol :
      (value bits i : ℕ) (s : Text)
      → i < 32
      → decode_from alphabet value bits (at_index alphabet i ++ s) ≡ (
          if leb 8 (bits + 5)
          then decode_from alphabet ((value * 32 + i) % 2 ^ 32) (bits + 5 - 8) s
            >>= (λ bytes. ok (((value * 32 + i) % 2 ^ 32 / 2 ^ (bits + 5 - 8) % 256) ∷ bytes))
          else decode_from alphabet ((value * 32 + i) % 2 ^ 32) (bits + 5) s)
  unfolding decode_from
  decode_symbol value bits i s small =
      let (c, at_i, found) = symbol i small in rw at_i (rw (found, decode_from) refl)

  pub encode_0 :
      (e b : ℕ) (bytes : List ℕ)
      → encode_from alphabet e 0 (b ∷ bytes)
        ≡ at_index alphabet ((with_byte e b) / 2 ^ 3 % 32)
          ++ (encode_from alphabet (with_byte e b) 3 bytes)
  unfolding encode_from symbols left_bits
  encode_0 e b bytes = simp append-nil

  pub step_0 :
      (e d b : ℕ) (bytes : List ℕ)
      → b < 256
      → decode_from alphabet
          (with_symbol d ((with_byte e b) / 2 ^ 3 % 32))
          5
          (encode_from alphabet (with_byte e b) 3 bytes)
        ≡ ok (
            ((with_symbol d ((with_byte e b) / 2 ^ 3 % 32)) % 32 * 8 + (with_byte e b) % 8) ∷ bytes)
      → decode_from alphabet d 0 (encode_from alphabet e 0 (b ∷ bytes)) ≡ ok (b ∷ bytes)
  step_0 e d b bytes small ih = rw (encode_0 e b bytes) (
      rw
        (decode_symbol d 0 ((with_byte e b) / 2 ^ 3 % 32)
          (encode_from alphabet (with_byte e b) 3 bytes) (omega arith))
        (rw ih (ok_head (omega arith))))

  pub encode_3 :
      (e b : ℕ) (bytes : List ℕ)
      → encode_from alphabet e 3 (b ∷ bytes)
        ≡ at_index alphabet ((with_byte e b) / 2 ^ 6 % 32)
          ++ (at_index alphabet ((with_byte e b) / 2 ^ 1 % 32)
              ++ (encode_from alphabet (with_byte e b) 1 bytes))
  unfolding encode_from symbols left_bits
  encode_3 e b bytes = simp (append-nil, append_assoc)

  pub step_3 :
      (e d b : ℕ) (bytes : List ℕ)
      → b < 256
      → decode_from alphabet
          (with_symbol
            (with_symbol d ((with_byte e b) / 2 ^ 6 % 32))
            ((with_byte e b) / 2 ^ 1 % 32))
          7
          (encode_from alphabet (with_byte e b) 1 bytes)
        ≡ ok (
            ((with_symbol
                  (with_symbol d ((with_byte e b) / 2 ^ 6 % 32))
                  ((with_byte e b) / 2 ^ 1 % 32))
                % 128
                * 2
              + (with_byte e b) % 2)
            ∷ bytes)
      → decode_from alphabet d 5 (encode_from alphabet e 3 (b ∷ bytes))
        ≡ ok ((d % 32 * 8 + e % 8) ∷ b ∷ bytes)
  step_3 e d b bytes small ih = rw (encode_3 e b bytes) (
      rw
        (decode_symbol d 5 ((with_byte e b) / 2 ^ 6 % 32)
          (at_index alphabet ((with_byte e b) / 2 ^ 1 % 32)
            ++ (encode_from alphabet (with_byte e b) 1 bytes))
          (omega arith))
        (rw
          (decode_symbol (with_symbol d ((with_byte e b) / 2 ^ 6 % 32)) 2
            ((with_byte e b) / 2 ^ 1 % 32) (encode_from alphabet (with_byte e b) 1 bytes)
            (omega arith))
          (rw ih (ok_pair (omega arith) (omega arith)))))

  pub encode_1 :
      (e b : ℕ) (bytes : List ℕ)
      → encode_from alphabet e 1 (b ∷ bytes)
        ≡ at_index alphabet ((with_byte e b) / 2 ^ 4 % 32)
          ++ (encode_from alphabet (with_byte e b) 4 bytes)
  unfolding encode_from symbols left_bits
  encode_1 e b bytes = simp append-nil

  pub step_1 :
      (e d b : ℕ) (bytes : List ℕ)
      → b < 256
      → decode_from alphabet
          (with_symbol d ((with_byte e b) / 2 ^ 4 % 32))
          4
          (encode_from alphabet (with_byte e b) 4 bytes)
        ≡ ok (
            ((with_symbol d ((with_byte e b) / 2 ^ 4 % 32)) % 16 * 16 + (with_byte e b) % 16)
            ∷ bytes)
      → decode_from alphabet d 7 (encode_from alphabet e 1 (b ∷ bytes))
        ≡ ok ((d % 128 * 2 + e % 2) ∷ b ∷ bytes)
  step_1 e d b bytes small ih = rw (encode_1 e b bytes) (
      rw
        (decode_symbol d 7 ((with_byte e b) / 2 ^ 4 % 32)
          (encode_from alphabet (with_byte e b) 4 bytes) (omega arith))
        (rw ih (ok_pair (omega arith) (omega arith))))

  pub encode_4 :
      (e b : ℕ) (bytes : List ℕ)
      → encode_from alphabet e 4 (b ∷ bytes)
        ≡ at_index alphabet ((with_byte e b) / 2 ^ 7 % 32)
          ++ (at_index alphabet ((with_byte e b) / 2 ^ 2 % 32)
              ++ (encode_from alphabet (with_byte e b) 2 bytes))
  unfolding encode_from symbols left_bits
  encode_4 e b bytes = simp (append-nil, append_assoc)

  pub step_4 :
      (e d b : ℕ) (bytes : List ℕ)
      → b < 256
      → decode_from alphabet
          (with_symbol
            (with_symbol d ((with_byte e b) / 2 ^ 7 % 32))
            ((with_byte e b) / 2 ^ 2 % 32))
          6
          (encode_from alphabet (with_byte e b) 2 bytes)
        ≡ ok (
            ((with_symbol
                  (with_symbol d ((with_byte e b) / 2 ^ 7 % 32))
                  ((with_byte e b) / 2 ^ 2 % 32))
                % 64
                * 4
              + (with_byte e b) % 4)
            ∷ bytes)
      → decode_from alphabet d 4 (encode_from alphabet e 4 (b ∷ bytes))
        ≡ ok ((d % 16 * 16 + e % 16) ∷ b ∷ bytes)
  step_4 e d b bytes small ih = rw (encode_4 e b bytes) (
      rw
        (decode_symbol d 4 ((with_byte e b) / 2 ^ 7 % 32)
          (at_index alphabet ((with_byte e b) / 2 ^ 2 % 32)
            ++ (encode_from alphabet (with_byte e b) 2 bytes))
          (omega arith))
        (rw
          (decode_symbol (with_symbol d ((with_byte e b) / 2 ^ 7 % 32)) 1
            ((with_byte e b) / 2 ^ 2 % 32) (encode_from alphabet (with_byte e b) 2 bytes)
            (omega arith))
          (rw ih (ok_pair (omega arith) (omega arith)))))

  pub encode_2 :
      (e b : ℕ) (bytes : List ℕ)
      → encode_from alphabet e 2 (b ∷ bytes)
        ≡ at_index alphabet ((with_byte e b) / 2 ^ 5 % 32)
          ++ (at_index alphabet ((with_byte e b) / 2 ^ 0 % 32)
              ++ (encode_from alphabet (with_byte e b) 0 bytes))
  unfolding encode_from symbols left_bits
  encode_2 e b bytes = simp (append-nil, append_assoc)

  pub step_2 :
      (e d b : ℕ) (bytes : List ℕ)
      → b < 256
      → decode_from alphabet
          (with_symbol
            (with_symbol d ((with_byte e b) / 2 ^ 5 % 32))
            ((with_byte e b) / 2 ^ 0 % 32))
          0
          (encode_from alphabet (with_byte e b) 0 bytes)
        ≡ ok bytes
      → decode_from alphabet d 6 (encode_from alphabet e 2 (b ∷ bytes))
        ≡ ok ((d % 64 * 4 + e % 4) ∷ b ∷ bytes)
  step_2 e d b bytes small ih = rw (encode_2 e b bytes) (
      rw
        (decode_symbol d 6 ((with_byte e b) / 2 ^ 5 % 32)
          (at_index alphabet ((with_byte e b) / 2 ^ 0 % 32)
            ++ (encode_from alphabet (with_byte e b) 0 bytes))
          (omega arith))
        (rw
          (decode_symbol (with_symbol d ((with_byte e b) / 2 ^ 5 % 32)) 3
            ((with_byte e b) / 2 ^ 0 % 32) (encode_from alphabet (with_byte e b) 0 bytes)
            (omega arith))
          (rw ih (ok_pair (omega arith) (omega arith)))))

  pub decode_nothing : (value bits : ℕ) → decode_from alphabet value bits [] ≡ ok []
  unfolding decode_from
  decode_nothing value bits = refl

  pub start_nothing : (e : ℕ) → encode_from alphabet e 0 [] ≡ []
  unfolding encode_from
  start_nothing e = refl

  pub end_3 :
      (e d : ℕ)
      → decode_from alphabet d 5 (encode_from alphabet e 3 []) ≡ ok ((d % 32 * 8 + e % 8) ∷ [])
  unfolding encode_from
  end_3 e d = rw (← append-nil (at_index alphabet (e * 2 ^ 2 % 32))) (
      rw (decode_symbol d 5 (e * 2 ^ 2 % 32) [] (omega arith))
        (rw (decode_nothing (with_symbol d (e * 2 ^ 2 % 32)) 2) (ok_head (omega arith))))

  pub end_1 :
      (e d : ℕ)
      → decode_from alphabet d 7 (encode_from alphabet e 1 []) ≡ ok ((d % 128 * 2 + e % 2) ∷ [])
  unfolding encode_from
  end_1 e d = rw (← append-nil (at_index alphabet (e * 2 ^ 4 % 32))) (
      rw (decode_symbol d 7 (e * 2 ^ 4 % 32) [] (omega arith))
        (rw (decode_nothing (with_symbol d (e * 2 ^ 4 % 32)) 4) (ok_head (omega arith))))

  pub end_4 :
      (e d : ℕ)
      → decode_from alphabet d 4 (encode_from alphabet e 4 []) ≡ ok ((d % 16 * 16 + e % 16) ∷ [])
  unfolding encode_from
  end_4 e d = rw (← append-nil (at_index alphabet (e * 2 ^ 1 % 32))) (
      rw (decode_symbol d 4 (e * 2 ^ 1 % 32) [] (omega arith))
        (rw (decode_nothing (with_symbol d (e * 2 ^ 1 % 32)) 1) (ok_head (omega arith))))

  pub end_2 :
      (e d : ℕ)
      → decode_from alphabet d 6 (encode_from alphabet e 2 []) ≡ ok ((d % 64 * 4 + e % 4) ∷ [])
  unfolding encode_from
  end_2 e d = rw (← append-nil (at_index alphabet (e * 2 ^ 3 % 32))) (
      rw (decode_symbol d 6 (e * 2 ^ 3 % 32) [] (omega arith))
        (rw (decode_nothing (with_symbol d (e * 2 ^ 3 % 32)) 3) (ok_head (omega arith))))
