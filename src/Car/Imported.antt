-- ===== src/Car/Imported.antt =====
-- `importCar` reads back what `exportCar` writes of blocks whose CIDs are those of SHA-256 digests.
use compute_contract_referen.Base.{
  arith, refl, ap, ◌≡◌, ◌∙◌, ℕ, ◌≤◌, List, [], ◌∷◌, ◌++◌, length, All, length-append, Text, ok,
  ◌>>=◌,
}
use compute_contract_referen.Cid.{cid_bytes}
use compute_contract_referen.Cid.Digests.{IsDigest, cid_text}
use compute_contract_referen.Cbor.Values.{encode_value}
use compute_contract_referen.Car.{
  CarBlock, varint_encode, cid_to_raw_bytes, car_header, write_blocks, write_car, import_car,
}
use compute_contract_referen.Car.Header.{header_lem, cbor_decode_lem, roots_lem}
use compute_contract_referen.Car.Blocks.{
  Content, blocks_of, IsStorable, raw_bytes, parts, write_blocks_lem, import_parts, import_whole,
}

write_whole :
    (cid : Text) (raw file_parts : List ℕ) (blocks : List CarBlock)
    → cid_to_raw_bytes cid ≡ ok raw
    → write_blocks blocks ≡ ok file_parts
    → write_car cid blocks
      ≡ ok (
          varint_encode (length (encode_value (car_header raw)))
          ++ (encode_value (car_header raw) ++ file_parts))
write_whole cid raw file_parts blocks root_read blocks_written =
    unfold write_car in rw (root_read, blocks_written) refl

-- What exportCar writes of a root and blocks whose CIDs are those of SHA-256 digests, and whose lengths
-- are below 2^31, importCar reads as that root and those blocks, in their order.
pub import_car-write_car :
    (root : List ℕ) (contents : List Content)
    → IsDigest root
    → All IsStorable contents
    → (write_car (cid_text root) (blocks_of contents) >>= import_car)
      ≡ ok (cid_text root ∷ [], blocks_of contents)
import_car-write_car root contents h storable =
    let raw = cid_bytes root in
    let counted : length raw ≡ 36 = omega (arith, h.count) in
    let header = encode_value (car_header raw) in
    let enough : length (parts contents) ≤ length (header ++ parts contents) =
      omega (arith, length-append header (parts contents)) in
    ap (λ file. file >>= import_car)
      (write_whole (cid_text root) raw (parts contents) (blocks_of contents) (raw_bytes root h)
        (write_blocks_lem contents storable))
    ∙ import_whole (varint_encode (length header) ++ (header ++ parts contents)) header
        (parts contents) (car_header raw) (cid_text root ∷ []) (blocks_of contents)
        (header_lem raw (header ++ parts contents) counted) (cbor_decode_lem raw counted)
        (roots_lem root) (import_parts contents (length (header ++ parts contents)) storable enough)
