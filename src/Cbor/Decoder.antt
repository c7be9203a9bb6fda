-- ===== src/Cbor/Decoder.antt =====
-- The class `Decoder` of src/typescript/lib/hono-factory-atproto-repo/cbor/dag-cbor.ts. `decode` takes fuel
-- for its depth and its items. An object is the list of its assignments.
use compute_contract_referen.Base.{
  ℕ, zero, suc, Bool, true, false, List, [], ◌∷◌, ◌==◌, if◌then◌else◌, Text, codes, text_eq, Result,
  ok, err, ◌>>=◌,
}
use compute_contract_referen.Cbor.{
  CborError, unexpected_end, invalid_length, unsupported, out_of_fuel, Integer, pos, negsuc,
  read_header,
}
use compute_contract_referen.Cbor.Texts.{decode_text}
use compute_contract_referen.Cbor.Values.{
  Value, unsigned, negative, byte_string, text_string, array, object, cid_link, boolean, nothing,
  Elements, no_elements, element, Members, no_members, member,
}

-- The loop over `readByte`
unfoldable pub read_bytes : ℕ → List ℕ → Result CborError (List ℕ × List ℕ)
read_bytes zero bytes = ok ([], bytes)
read_bytes (suc n) [] = err unexpected_end
read_bytes (suc n) (b ∷ bytes) = read_bytes n bytes >>= λ (taken, rest). ok (b ∷ taken, rest)

-- `new Uint8Array(value)` and the bytes for it
unfoldable pub read_string : Integer → List ℕ → Result CborError (List ℕ × List ℕ)
unfolding read_bytes
read_string (pos n) bytes = read_bytes n bytes
read_string (negsuc n) bytes = err invalid_length

-- How often a loop up to the value runs.
abbrev pub times : Integer → ℕ
times (pos n) = n
times (negsuc n) = 0

abbrev pub strip_prefix : List ℕ → List ℕ
strip_prefix [] = []
strip_prefix (zero ∷ cid) = cid
strip_prefix (suc b ∷ cid) = suc b ∷ cid

-- The value of tag 42
unfoldable pub read_link : List ℕ → Result CborError (Value × List ℕ)
unfolding read_header read_string
read_link bytes = read_header bytes >>= λ (major, value, rest).
    (if major == 2
      then (read_string value rest >>= λ (cid, more). ok (cid_link (strip_prefix cid), more))
      else err unsupported)

abbrev pub simple_value : Integer → List ℕ → Result CborError (Value × List ℕ)
simple_value (negsuc n) rest = err unsupported
simple_value (pos n) rest =
    if n == 20
    then ok (boolean false, rest)
    else if n == 21
    then ok (boolean true, rest)
    else if n == 22
    then ok (nothing, rest)
    else err unsupported

abbrev pub plain_integer : Integer → Value
plain_integer (pos n) = unsigned n
plain_integer (negsuc n) = negative n

-- `-1 - value`
abbrev pub below_zero : Integer → Value
below_zero (pos n) = negative n
below_zero (negsuc n) = unsigned n

abbrev pub is_cid_tag : Integer → Bool
is_cid_tag (pos n) = n == 42
is_cid_tag (negsuc n) = false

-- The switch on the major type, given the loops over items.
unfoldable pub decode_major :
    (ℕ → List ℕ → Result CborError (Elements × List ℕ))
    → (ℕ → List ℕ → Result CborError (Members × List ℕ))
    → ℕ
    → Integer
    → List ℕ
    → Result CborError (Value × List ℕ)
unfolding read_string read_link decode_text
decode_major elements members major value rest =
    if major == 0
    then ok (plain_integer value, rest)
    else if major == 1
    then ok (below_zero value, rest)
    else if major == 2
    then (read_string value rest >>= λ (bytes, more). ok (byte_string bytes, more))
    else if major == 3
    then (read_string value rest >>= λ (text, more). ok (text_string (decode_text text), more))
    else if major == 4
    then (elements (times value) rest >>= λ (vs, more). ok (array vs, more))
    else if major == 5
    then (members (times value) rest >>= λ (ms, more). ok (object ms, more))
    else if major == 6
    then (if is_cid_tag value then read_link rest else err unsupported)
    else if major == 7
    then simple_value value rest
    else err unsupported

-- `typeof key !== "string"`
abbrev pub as_key : Value → Result CborError Text
as_key (text_string k) = ok k
as_key _ = err unsupported

-- `obj[key] = v`: a key that is `__proto__` sets the prototype or nothing, and is no member.
unfoldable pub assign : Text → Value → Members → Members
unfolding text_eq
assign k v ms = if text_eq k (codes "__proto__") then ms else member k v ms

-- The decoder, with fuel for its depth and its items.
unfoldable mutual
  pub decode_value : ℕ → List ℕ → Result CborError (Value × List ℕ)
  decode_value zero bytes = err out_of_fuel
  decode_value (suc fuel) bytes = read_header bytes >>= λ (major, value, rest).
      decode_major (decode_elements fuel) (decode_members fuel) major value rest

  pub decode_elements : ℕ → ℕ → List ℕ → Result CborError (Elements × List ℕ)
  decode_elements fuel zero bytes = ok (no_elements, bytes)
  decode_elements zero (suc n) bytes = err out_of_fuel
  decode_elements (suc fuel) (suc n) bytes = decode_value fuel bytes >>= λ (v, rest).
      decode_elements fuel n rest >>= λ (vs, more). ok (element v vs, more)

  pub decode_members : ℕ → ℕ → List ℕ → Result CborError (Members × List ℕ)
  decode_members fuel zero bytes = ok (no_members, bytes)
  decode_members zero (suc n) bytes = err out_of_fuel
  decode_members (suc fuel) (suc n) bytes = decode_value fuel bytes >>= λ (key, rest).
      as_key key >>= λ k. decode_value fuel rest >>= λ (v, more).
      decode_members fuel n more >>= λ (ms, left). ok (assign k v ms, left)
