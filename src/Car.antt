-- ===== src/Car.antt =====
-- CAR files: src/typescript/lib/hono-factory-atproto-repo/repo/car.ts. A file is a list of bytes, and an
-- offset into it what is left from there. A length of 2^31 or more reads as a negative number in the
-- code, and is an error of the model's own. A header that is no object with a list of byte strings is one
-- too.
pub mod Varints
pub mod Collecting
pub mod Collected
pub mod Subtrees
pub mod Header
pub mod Blocks
pub mod Imported
mod Tests
use compute_contract_referen.Base.{
  ℕ, zero, suc, ◌+◌, ◌*◌, ◌/◌, ◌%◌, ◌^◌, Bool, true, false, Option, none, some, List, [], ◌∷◌, ◌++◌,
  ◌==◌, leb, ltb, if◌then◌else◌, length, take, drop, Text, text_eq, codes, starts_with, includes,
  Result, ok, err, ◌>>=◌,
}
use compute_contract_referen.Base32.{Base32Error, base32_alphabet, encode, decode}
use compute_contract_referen.Cbor.{CborError}
use compute_contract_referen.Cbor.Values.{
  Value, byte_string, array, object, unsigned, cid_link, boolean, nothing, Elements, no_elements,
  element, Members, no_members, member, get_member, encode_value,
}
use compute_contract_referen.Cbor.Decoder.{decode_value}

pub data CarError : Type 0 where
  varint_too_long : CarError
  negative_length : ℕ → CarError
  no_multibase : CarError
  bad_base32 : Base32Error → CarError
  bad_header : CborError → CarError
  other_header : CarError
  block_too_short : ℕ → CarError
  block_not_found : Text → CarError
  out_of_fuel : CarError

-- The loop of `varintEncode`. `>>>` reads the low 32 bits, so that there are four rounds at most.
unfoldable pub varint_from : ℕ → ℕ → List ℕ
varint_from zero n = (n % 128) ∷ []
varint_from (suc rounds) n =
    let rest = varint_from rounds (n % 2 ^ 32 / 128) in
    if ltb 0x7f n then (n % 128 + 128) ∷ rest else (n % 128) ∷ []

-- `varintEncode`
unfoldable pub varint_encode : ℕ → List ℕ
unfolding varint_from
varint_encode n = varint_from 4 n

-- `a | b` of so many bits
unfoldable pub or_bits : ℕ → ℕ → ℕ → ℕ
or_bits zero a b = 0
or_bits (suc n) a b = (if a % 2 == 1 then 1 else b % 2) + 2 * or_bits n (a / 2) (b / 2)

-- The loop of `readVarint`: the low 32 bits of `value`, and what is left behind the bytes that are read.
-- A shift counts modulo 32.
unfoldable pub read_varint_from : ℕ → ℕ → List ℕ → Result CarError (ℕ × List ℕ)
unfolding or_bits
read_varint_from value shift [] = ok (value, [])
read_varint_from value shift (b ∷ buf) =
    let joined = or_bits 32 value (b % 128 * 2 ^ (shift % 32) % 2 ^ 32) in
    let more = read_varint_from joined (shift + 7) buf in
    if ltb (b % 256) 0x80
    then ok (joined, buf)
    else if ltb 63 (shift + 7)
    then err varint_too_long
    else more

-- `readVarint`, and the sign of what it gives
unfoldable pub read_varint : List ℕ → Result CarError (ℕ × List ℕ)
unfolding read_varint_from
read_varint buf = read_varint_from 0 0 buf >>= (λ (value, rest).
    if ltb value (2 ^ 31) then ok (value, rest) else err (negative_length value))

-- `cidToRawBytes`
unfoldable pub cid_to_raw_bytes : Text → Result CarError (List ℕ)
unfolding starts_with decode
cid_to_raw_bytes cid =
    if starts_with cid (codes "b")
    then elim (decode base32_alphabet (drop 1 cid)) [
      | err e ↦ err (bad_base32 e)
      | ok bytes ↦ ok bytes
    ]
    else err no_multibase

-- `cidFromRawBytes`
unfoldable pub cid_from_raw_bytes : List ℕ → Text
unfolding encode
cid_from_raw_bytes bytes = b'b' ∷ encode base32_alphabet bytes

-- `CarBlock`
pub record CarBlock : Type 0 where
  pub cid : Text
  pub bytes : List ℕ

-- The header of a file.
unfoldable pub car_header : List ℕ → Value
car_header root = object (
    member (codes "roots") (array (element (byte_string root) no_elements))
      (member (codes "version") (unsigned 1) no_members))

-- The parts of the blocks, put together.
unfoldable pub write_blocks : List CarBlock → Result CarError (List ℕ)
unfolding cid_to_raw_bytes varint_encode
write_blocks [] = ok []
write_blocks (block ∷ blocks) = cid_to_raw_bytes block.cid >>= (λ cid_bytes.
    let combined = cid_bytes ++ block.bytes in
    write_blocks blocks >>= (λ rest. ok (varint_encode (length combined) ++ (combined ++ rest))))

-- `exportCar`, from the blocks that were collected
unfoldable pub write_car : Text → List CarBlock → Result CarError (List ℕ)
unfolding cid_to_raw_bytes varint_encode write_blocks encode_value car_header
write_car root blocks = cid_to_raw_bytes root >>= (λ root_bytes.
    let header = encode_value (car_header root_bytes) in
    write_blocks blocks >>= (λ parts. ok (varint_encode (length header) ++ (header ++ parts))))

-- `(header.roots ?? []).map(cidFromRawBytes)`
unfoldable pub root_elements : Elements → Result CarError (List Text)
unfolding cid_from_raw_bytes
root_elements no_elements = ok []
root_elements (element (byte_string root) rest) =
    root_elements rest >>= (λ roots. ok (cid_from_raw_bytes root ∷ roots))
root_elements (element _ rest) = err other_header

unfoldable pub header_roots : Value → Result CarError (List Text)
unfolding get_member root_elements
header_roots (object ms) = elim (get_member (codes "roots") ms) [
  | none ↦ ok []
  | some v ↦ elim v [
    | nothing ↦ ok []
    | array roots ↦ root_elements roots
    | unsigned _ ↦ err other_header
    | compute_contract_referen.Cbor.Values.negative _ ↦ err other_header
    | byte_string _ ↦ err other_header
    | compute_contract_referen.Cbor.Values.text_string _ ↦ err other_header
    | object _ ↦ err other_header
    | cid_link _ ↦ err other_header
    | boolean _ ↦ err other_header
  ]
]
header_roots _ = err other_header

-- A round of `importCar` over what follows the length of a block, and the rounds after it.
unfoldable pub import_block :
    (List ℕ → Result CarError (List CarBlock)) → ℕ → List ℕ → Result CarError (List CarBlock)
unfolding cid_from_raw_bytes
import_block later block_len rest = elim (block_len == 0) [
  | true ↦ later rest
  | false ↦
      let block_data = take block_len rest in
      elim (ltb (length block_data) 36) [
        | true ↦ err (block_too_short (length block_data))
        | false ↦ later (drop block_len rest) >>= (λ blocks. ok (
            record { cid = cid_from_raw_bytes (take 36 block_data); bytes = drop 36 block_data }
            ∷ blocks))
      ]
]

-- The loop of `importCar` over the blocks. Each round reads a byte at least, so a unit of fuel for each
-- byte is enough.
unfoldable pub import_blocks : ℕ → List ℕ → Result CarError (List CarBlock)
unfolding read_varint import_block
import_blocks fuel [] = ok []
import_blocks zero (b ∷ buf) = err out_of_fuel
import_blocks (suc fuel) (b ∷ buf) =
    read_varint (b ∷ buf)
    >>= (λ (block_len, rest). import_block (import_blocks fuel) block_len rest)

-- `cborDecode`, with fuel for two items a byte
unfoldable pub cbor_decode : List ℕ → Result CarError Value
unfolding decode_value
cbor_decode bytes = elim (decode_value (2 * length bytes) bytes) [
  | err e ↦ err (bad_header e)
  | ok (v, _) ↦ ok v
]

-- `importCar`: the roots and the blocks
unfoldable pub import_car : List ℕ → Result CarError (List Text × List CarBlock)
unfolding read_varint cbor_decode header_roots import_blocks
import_car car_bytes = read_varint car_bytes >>= (λ (header_len, rest).
    cbor_decode (take header_len rest) >>= (λ header. header_roots header >>= (λ roots.
      import_blocks (length rest) (drop header_len rest) >>= (λ blocks. ok (roots, blocks)))))
