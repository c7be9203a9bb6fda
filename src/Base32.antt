-- ===== src/Base32.antt =====
-- Base32 as src/typescript/lib/hono-factory-atproto-repo has it twice: `base32Encode` and
-- `base32Decode` of util/bytes.ts, and `b32encode` and `b32decode` of util/tid.ts, which differ in their
-- alphabets. `value` is a 32-bit integer that the code reads by `>>>` and `&` alone, so it is taken
-- modulo 2^32; a byte is a number below 256.
pub mod Steps
pub mod Decoded
pub mod Ordered
mod Tests
use compute_contract_referen.Base.{
  ℕ, zero, suc, ◌+◌, ◌-◌, ◌*◌, ◌/◌, ◌%◌, ◌^◌, none, some, List, [], ◌∷◌, ◌++◌, leb, ltb,
  if◌then◌else◌, Text, codes, index_of, Result, ok, err, ◌>>=◌,
}
use compute_contract_referen.Hex.{at_index}

pub data Base32Error : Type 0 where
  invalid_character : ℕ → Base32Error

-- `BASE32_ALPHABET` of bytes.ts
abbrev pub base32_alphabet : Text
base32_alphabet = codes "abcdefghijklmnopqrstuvwxyz234567"

-- `B32` of tid.ts, in the order of the code points
abbrev pub b32 : Text
b32 = codes "234567abcdefghijklmnopqrstuvwxyz"

module _ (alphabet : Text) where
  -- The loop `while (bits >= 5)`: the symbols that it appends, and the bits that it leaves. Two rounds
  -- are enough, since there are at most 12 bits.
  unfoldable pub symbols : ℕ → ℕ → ℕ → Text
  unfolding at_index
  symbols zero value bits = []
  symbols (suc fuel) value bits =
      let rest = symbols fuel value (bits - 5) in
      if leb 5 bits then at_index alphabet (value / 2 ^ (bits - 5) % 32) ++ rest else []

unfoldable pub left_bits : ℕ → ℕ → ℕ
left_bits zero bits = bits
left_bits (suc fuel) bits =
    let rest = left_bits fuel (bits - 5) in if leb 5 bits then rest else bits

module _ (alphabet : Text) where
  -- The loop of the encoder, from its `value` and `bits`, and the last symbol.
  unfoldable pub encode_from : ℕ → ℕ → List ℕ → Text
  unfolding symbols left_bits at_index
  encode_from value bits [] =
      if ltb 0 bits then at_index alphabet (value * 2 ^ (5 - bits) % 32) else []
  encode_from value bits (b ∷ bytes) =
      let shifted = (value * 256 + b) % 2 ^ 32 in
      symbols alphabet 2 shifted (bits + 8) ++ encode_from shifted (left_bits 2 (bits + 8)) bytes

  -- `base32Encode`, `b32encode`
  unfoldable pub encode : List ℕ → Text
  unfolding encode_from
  encode bytes = encode_from 0 0 bytes

  -- The loop of the decoder.
  unfoldable pub decode_from : ℕ → ℕ → Text → Result Base32Error (List ℕ)
  unfolding index_of
  decode_from value bits [] = ok []
  decode_from value bits (c ∷ s) = elim (index_of alphabet (c ∷ [])) [
    | none ↦ err (invalid_character c)
    | some idx ↦
        let shifted = (value * 32 + idx) % 2 ^ 32 in
        let more = decode_from shifted (bits + 5) s in
        let pushed =
          decode_from shifted (bits + 5 - 8) s
          >>= (λ bytes. ok ((shifted / 2 ^ (bits + 5 - 8) % 256) ∷ bytes)) in
        if leb 8 (bits + 5) then pushed else more
  ]

  -- `base32Decode`, `b32decode`
  unfoldable pub decode : Text → Result Base32Error (List ℕ)
  unfolding decode_from
  decode s = decode_from 0 0 s
