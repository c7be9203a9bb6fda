-- ===== src/Commits/Slices.antt =====
-- The CAR file of a commit: `buildCarSlice` of src/typescript/lib/hono-factory-atproto-repo/repo/repo.ts, whose
-- `varintEncode` and `cidToRawBytes` are those of car.ts again. The block store is a function.
use compute_contract_referen.Base.{
  arith, refl, ap, sym, append_assoc, ◌≡◌, ◌∙◌, ℕ, ◌+◌, ◌≤◌, Option, none, some, List, [], ◌∷◌,
  ◌++◌, All, length, length-append, Text, codes, Result, ok, ◌>>=◌,
}
use compute_contract_referen.Cbor.Values.{
  Value, array, no_elements, unsigned, object, member, no_members, encode_value, link_or_object,
  link_text, sort_keys, key_before, insert_key, count_members, count_elements, join_members,
}
use compute_contract_referen.Cbor.Decoder.{assign, decode_value, decode_major}
use compute_contract_referen.Cbor.{write_header, read_header}
use compute_contract_referen.Cid.{cid_bytes}
use compute_contract_referen.Cid.Digests.{cid_text}
use compute_contract_referen.Car.{
  CarError, varint_encode, cid_to_raw_bytes, header_roots, cbor_decode, import_car,
}
use compute_contract_referen.Car.Varints.{read_varint-varint_encode}
use compute_contract_referen.Car.Blocks.{
  Content, blocks_of, IsStorable, raw_bytes, parts, import_parts, import_whole,
}

-- `{ roots: [], version: 1 }`
abbrev pub slice_header : Value
slice_header =
    object (
      member (codes "roots") (array no_elements) (member (codes "version") (unsigned 1) no_members))

header_length : length (encode_value slice_header) ≡ 17
unfolding encode_value link_or_object link_text sort_keys key_before insert_key count_members
    count_elements join_members write_header
header_length = refl

header_read : cbor_decode (encode_value slice_header) ≡ ok slice_header
unfolding cbor_decode assign encode_value link_or_object link_text sort_keys key_before insert_key
    count_members count_elements join_members write_header decode_value decode_major read_header
header_read = refl

module _ (get : Text → Option (List ℕ)) where
  -- The part of a CID's block, if the store has it.
  unfoldable pub slice_part : Text → Option (List ℕ) → Result CarError (List ℕ)
  unfolding varint_encode cid_to_raw_bytes
  slice_part cid none = ok []
  slice_part cid (some block) = cid_to_raw_bytes cid >>= (λ cid_bytes.
      ok (varint_encode (length cid_bytes + length block) ++ (cid_bytes ++ block)))

  unfoldable pub slice_parts : List Text → Result CarError (List ℕ)
  unfolding slice_part
  slice_parts [] = ok []
  slice_parts (cid ∷ cids) =
      slice_part cid (get cid) >>= (λ part. slice_parts cids >>= (λ rest. ok (part ++ rest)))

  -- `buildCarSlice`
  unfoldable pub build_car_slice : List Text → Result CarError (List ℕ)
  unfolding varint_encode slice_parts encode_value
  build_car_slice cids =
      let header = encode_value slice_header in
      slice_parts cids >>= (λ parts. ok (varint_encode (length header) ++ (header ++ parts)))

  -- The contents that the store has for some CIDs, in their order; it has none for the others.
  pub data Holds : List Text → List Content → Type 0 where
    nothing_asked : Holds [] []
    missing :
        {cid : Text} {cids : List Text} {contents : List Content}
        → get cid ≡ none
        → Holds cids contents
        → Holds (cid ∷ cids) contents
    present :
        {digest bytes : List ℕ} {cids : List Text} {contents : List Content}
        → get (cid_text digest) ≡ some bytes
        → Holds cids contents
        → Holds (cid_text digest ∷ cids) ((digest, bytes) ∷ contents)

  one_part :
      (cid : Text) (raw bytes : List ℕ)
      → cid_to_raw_bytes cid ≡ ok raw
      → slice_part cid (some bytes) ≡ ok (varint_encode (length (raw ++ bytes)) ++ (raw ++ bytes))
  one_part cid raw bytes reads =
      unfold slice_part in
      rw reads (ap (λ n. ok (varint_encode n ++ (raw ++ bytes))) (sym (length-append raw bytes)))

  next_part :
      (cid : Text) (held : Option (List ℕ)) (part : List ℕ) (cids : List Text) (rest : List ℕ)
      → get cid ≡ held
      → slice_part cid held ≡ ok part
      → slice_parts cids ≡ ok rest
      → slice_parts (cid ∷ cids) ≡ ok (part ++ rest)
  next_part cid held part cids rest found written more =
      unfold slice_parts in rw (found, written, more) refl

  slice_parts_lem :
      (cids : List Text) (contents : List Content)
      → Holds cids contents
      → All IsStorable contents
      → slice_parts cids ≡ ok (parts contents)
  unfolding parts varint_encode
  slice_parts_lem [] [] nothing_asked h = unfold slice_parts parts in refl
  slice_parts_lem [] (_ ∷ contents) held h = elim held [ ]
  slice_parts_lem (cid ∷ cids) contents (missing none_held held) h =
      next_part cid none [] cids (parts contents) none_held (unfold slice_part in refl)
        (slice_parts_lem cids contents held h)
  slice_parts_lem (_ ∷ cids) ((digest, bytes) ∷ contents) (present found held) (storable, h) =
      let block = cid_bytes digest ++ bytes in
      next_part (cid_text digest) (some bytes) (varint_encode (length block) ++ block) cids
        (parts contents) found
        (one_part (cid_text digest) (cid_bytes digest) bytes (raw_bytes digest (storable.digest)))
        (slice_parts_lem cids contents held h)
      ∙ ap ok (append_assoc (varint_encode (length block)) block (parts contents))

  slice_whole :
      (cids : List Text) (file_parts : List ℕ)
      → slice_parts cids ≡ ok file_parts
      → build_car_slice cids
        ≡ ok (
            varint_encode (length (encode_value slice_header))
            ++ (encode_value slice_header ++ file_parts))
  slice_whole cids file_parts written = unfold build_car_slice in rw written refl

  -- The file of a commit is read by importCar as the blocks that the store has for its CIDs, in their
  -- order, and with no root: where these are CIDs of SHA-256 digests and the lengths below 2^31. A CID that
  -- the store has no block for is left out.
  pub import_car-build_car_slice :
      (cids : List Text) (contents : List Content)
      → Holds cids contents
      → All IsStorable contents
      → (build_car_slice cids >>= import_car) ≡ ok ([], blocks_of contents)
  import_car-build_car_slice cids contents held storable =
      let header = encode_value slice_header in
      let enough : length (parts contents) ≤ length (header ++ parts contents) =
        omega (arith, length-append header (parts contents)) in
      let counted = header_length in
      ap (λ file. file >>= import_car)
        (slice_whole cids (parts contents) (slice_parts_lem cids contents held storable))
      ∙ import_whole (varint_encode (length header) ++ (header ++ parts contents)) header
          (parts contents) slice_header [] (blocks_of contents)
          (read_varint-varint_encode (length header) (header ++ parts contents)
            (omega (arith, counted)))
          header_read (unfold header_roots in refl)
          (import_parts contents (length (header ++ parts contents)) storable enough)
