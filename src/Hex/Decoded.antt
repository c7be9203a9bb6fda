-- ===== src/Hex/Decoded.antt =====
-- Decoding what `hexEncode` has written.
use compute_contract_referen.Base.{
  arith, refl, ◌≡◌, ℕ, zero, suc, ◌+◌, ◌*◌, ◌/◌, ◌%◌, ◌<◌, List, [], ◌∷◌, ok, length, All,
}
use compute_contract_referen.Hex.{
  hex_alphabet, at_index, hex_encode, hex_nibble, hex_pairs, hex_decode,
}

-- Every element is a byte.
abbrev pub AreBytes : List ℕ → Type 0
AreBytes = All (λ b. b < 256)

nibble_of_digit :
    (n : ℕ) → n < 16 → (c : ℕ) × (at_index hex_alphabet n ≡ c ∷ []) × (hex_nibble c ≡ ok n)
unfolding at_index hex_nibble
nibble_of_digit zero h = (48, refl, refl)
nibble_of_digit (suc zero) h = (49, refl, refl)
nibble_of_digit (suc (suc zero)) h = (50, refl, refl)
nibble_of_digit (suc (suc (suc zero))) h = (51, refl, refl)
nibble_of_digit (suc (suc (suc (suc zero)))) h = (52, refl, refl)
nibble_of_digit (suc (suc (suc (suc (suc zero))))) h = (53, refl, refl)
nibble_of_digit (suc (suc (suc (suc (suc (suc zero)))))) h = (54, refl, refl)
nibble_of_digit (suc (suc (suc (suc (suc (suc (suc zero))))))) h = (55, refl, refl)
nibble_of_digit (suc (suc (suc (suc (suc (suc (suc (suc zero)))))))) h = (56, refl, refl)
nibble_of_digit (suc (suc (suc (suc (suc (suc (suc (suc (suc zero))))))))) h = (57, refl, refl)
nibble_of_digit (suc (suc (suc (suc (suc (suc (suc (suc (suc (suc zero)))))))))) h =
    (97, refl, refl)
nibble_of_digit (suc (suc (suc (suc (suc (suc (suc (suc (suc (suc (suc zero))))))))))) h =
    (98, refl, refl)
nibble_of_digit (suc (suc (suc (suc (suc (suc (suc (suc (suc (suc (suc (suc zero)))))))))))) h =
    (99, refl, refl)
nibble_of_digit (suc (suc (suc (suc (suc (suc (suc (suc (suc (suc (suc (suc (suc zero)))))))))))))
      h =
    (100, refl, refl)
nibble_of_digit
      (suc (suc (suc (suc (suc (suc (suc (suc (suc (suc (suc (suc (suc (suc zero)))))))))))))) h =
    (101, refl, refl)
nibble_of_digit
      (suc (suc (suc (suc (suc (suc (suc (suc (suc (suc (suc (suc (suc (suc (suc zero)))))))))))))))
      h =
    (102, refl, refl)
nibble_of_digit
      (suc
        (suc (suc (suc (suc (suc (suc (suc (suc (suc (suc (suc (suc (suc (suc (suc n))))))))))))))))
      h =
    absurd (omega arith)

hex_pairs-hex_encode :
    (bytes : List ℕ)
    → AreBytes bytes
    → (hex_pairs (hex_encode bytes) ≡ ok bytes) × (length (hex_encode bytes) % 2 ≡ 0)
unfolding hex_pairs hex_encode
hex_pairs-hex_encode [] all_bytes = (refl, refl)
hex_pairs-hex_encode (b ∷ bytes) (small, rest) =
    let (c, c_at, c_nibble) = nibble_of_digit (b / 16) (omega arith) in
    let (d, d_at, d_nibble) = nibble_of_digit (b % 16) (omega arith) in
    let (decoded, even) = hex_pairs-hex_encode bytes rest in
    let whole : b / 16 * 16 + b % 16 ≡ b = omega arith in
    (
      rw (c_at, d_at, c_nibble, d_nibble, decoded, whole) refl,
      rw (c_at, d_at) (omega (arith, even)),
    )

-- Decoding the hexadecimal string of a list of bytes gives the list.
pub hex_decode-hex_encode :
    (bytes : List ℕ) → AreBytes bytes → hex_decode (hex_encode bytes) ≡ ok bytes
unfolding hex_decode
hex_decode-hex_encode bytes h =
    let (decoded, even) = hex_pairs-hex_encode bytes h in rw even decoded
