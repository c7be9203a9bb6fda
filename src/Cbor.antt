-- ===== src/Cbor.antt =====
-- The headers of src/typescript/lib/hono-factory-atproto-repo/cbor/dag-cbor.ts: a major type and a
-- value. Bytes are numbers below 256. A shift by n is a division by 2 ^ n or a product with it, and `|`
-- of numbers with no common bits a sum; `<<` and `|` give signed 32-bit integers in the source, so that
-- what is read may be negative.
pub mod Headers
pub mod Texts
pub mod Values
pub mod Decoder
pub mod Fitting
pub mod Decoding
pub mod Encoded
mod Tests
use compute_contract_referen.Base.{
  ℕ, zero, suc, ◌+◌, ◌-◌, ◌*◌, ◌/◌, ◌%◌, Bool, true, false, List, [], ◌∷◌, ◌++◌, ◌==◌, ltb,
  if◌then◌else◌, Result, ok, err, ◌>>=◌,
}

pub data CborError : Type 0 where
  unexpected_end : CborError
  unsupported_info : ℕ → CborError
  out_of_safe_range : CborError
  invalid_length : CborError
  unsupported : CborError
  out_of_fuel : CborError

-- A JavaScript integer: `negsuc n` is - (n + 1).
pub data Integer : Type 0 where
  pos : ℕ → Integer
  negsuc : ℕ → Integer

-- `writeHeader`: the bytes that it pushes
unfoldable pub write_header : ℕ → ℕ → List ℕ
write_header major value =
    if ltb value 24
    then (major * 32 + value) ∷ []
    else if ltb value 256
    then (major * 32 + 24) ∷ value ∷ []
    else if ltb value 65536
    then (major * 32 + 25) ∷ (value / 256) % 256 ∷ value % 256 ∷ []
    else if ltb value 4294967296
    then (major * 32 + 26)
      ∷ (value / 16777216) % 256
      ∷ (value / 65536) % 256
      ∷ (value / 256) % 256
      ∷ value % 256
      ∷ []
    else (major * 32 + 27)
      ∷ ((value / 4294967296) / 16777216) % 256
      ∷ ((value / 4294967296) / 65536) % 256
      ∷ ((value / 4294967296) / 256) % 256
      ∷ (value / 4294967296) % 256
      ∷ ((value % 4294967296) / 16777216) % 256
      ∷ ((value % 4294967296) / 65536) % 256
      ∷ ((value % 4294967296) / 256) % 256
      ∷ (value % 4294967296) % 256
      ∷ []

-- The signed 32-bit integer with these bits.
unfoldable pub signed32 : ℕ → Integer
signed32 n = if ltb n 2147483648 then pos n else negsuc (4294967295 - n)

-- `hi * 0x100000000 + lo`
unfoldable pub join_words : Integer → Integer → Integer
join_words (pos hi) (pos lo) = pos (hi * 4294967296 + lo)
join_words (pos zero) (negsuc lo) = negsuc lo
join_words (pos (suc hi)) (negsuc lo) = pos (hi * 4294967296 + (4294967295 - lo))
join_words (negsuc hi) (pos lo) = negsuc (((hi + 1) * 4294967296 - lo) - 1)
join_words (negsuc hi) (negsuc lo) = negsuc ((hi + 1) * 4294967296 + lo)

-- `Number.isSafeInteger`
unfoldable pub is_safe : Integer → Bool
is_safe (pos n) = ltb n 9007199254740992
is_safe (negsuc n) = ltb n 9007199254740991

-- `readByte`
unfoldable pub read_byte : List ℕ → Result CborError (ℕ × List ℕ)
read_byte [] = err unexpected_end
read_byte (b ∷ bytes) = ok (b, bytes)

-- Four bytes, the first one the highest.
unfoldable pub read_word : List ℕ → Result CborError (Integer × List ℕ)
unfolding read_byte signed32
read_word bytes = read_byte bytes >>= λ (a, r). read_byte r >>= λ (b, s). read_byte s >>= λ (c, t).
    read_byte t >>= λ (d, u). ok (signed32 (a * 16777216 + b * 65536 + c * 256 + d), u)

-- The value, by the additional information.
unfoldable pub read_value : ℕ → List ℕ → Result CborError (Integer × List ℕ)
unfolding read_byte read_word join_words is_safe
read_value info bytes =
    if ltb info 24
    then ok (pos info, bytes)
    else if info == 24
    then (read_byte bytes >>= λ (a, r). ok (pos a, r))
    else if info == 25
    then (read_byte bytes >>= λ (a, r). read_byte r >>= λ (b, s). ok (pos (a * 256 + b), s))
    else if info == 26
    then read_word bytes
    else if info == 27
    then (read_word bytes >>= λ (hi, r). read_word r >>= λ (lo, s).
        (if is_safe (join_words hi lo) then ok (join_words hi lo, s) else err out_of_safe_range))
    else err (unsupported_info info)

-- `readHeader`: the major type, the value, and the bytes that are left
unfoldable pub read_header : List ℕ → Result CborError (ℕ × Integer × List ℕ)
unfolding read_byte read_value
read_header bytes =
    read_byte bytes >>= λ (b, r). read_value (b % 32) r >>= λ (value, s). ok (b / 32, value, s)
