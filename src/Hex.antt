-- ===== src/Hex.antt =====
-- `hexEncode` and `hexDecode` of src/typescript/lib/hono-factory-atproto-repo/util/bytes.ts. A byte is a
-- number below 256; a string is the list of its code units.
pub mod Decoded
mod Tests
use compute_contract_referen.Base.{
  ℕ, zero, suc, ◌+◌, ◌-◌, ◌*◌, ◌/◌, ◌%◌, Bool, true, false, ◌&&◌, List, [], ◌∷◌, ◌++◌, ◌==◌, leb,
  if◌then◌else◌, length, Text, codes, Result, ok, err, ◌>>=◌,
}

pub data HexError : Type 0 where
  odd_length : HexError
  invalid_nibble : ℕ → HexError

-- `HEX_ALPHABET`
abbrev pub hex_alphabet : Text
hex_alphabet = codes "0123456789abcdef"

-- `alphabet[i]` as it is appended to a string
unfoldable pub at_index : Text → ℕ → Text
at_index [] i = codes "undefined"
at_index (c ∷ s) zero = c ∷ []
at_index (c ∷ s) (suc i) = at_index s i

-- `hexEncode`
unfoldable pub hex_encode : List ℕ → Text
unfolding at_index
hex_encode [] = []
hex_encode (b ∷ bytes) =
    at_index hex_alphabet (b / 16) ++ at_index hex_alphabet (b % 16) ++ hex_encode bytes

-- `hexNibble`
unfoldable pub hex_nibble : ℕ → Result HexError ℕ
hex_nibble c =
    if leb 0x30 c && leb c 0x39
    then ok (c - 0x30)
    else if leb 0x41 c && leb c 0x46
    then ok (c - 0x41 + 10)
    else if leb 0x61 c && leb c 0x66
    then ok (c - 0x61 + 10)
    else err (invalid_nibble c)

-- The loop of `hexDecode`, over a string of even length.
unfoldable pub hex_pairs : Text → Result HexError (List ℕ)
unfolding hex_nibble
hex_pairs [] = ok []
hex_pairs (_ ∷ []) = err odd_length
hex_pairs (c ∷ d ∷ s) = do
  high ← hex_nibble c
  low ← hex_nibble d
  bytes ← hex_pairs s
  ok ((high * 16 + low) ∷ bytes)

-- `hexDecode`
unfoldable pub hex_decode : Text → Result HexError (List ℕ)
unfolding hex_pairs
hex_decode s = if length s % 2 == 0 then hex_pairs s else err odd_length
