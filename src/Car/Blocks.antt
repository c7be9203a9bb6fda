-- ===== src/Car/Blocks.antt =====
-- The blocks of a CAR file whose CIDs are those of SHA-256 digests: what is written of them, and that
-- `importCar` reads them back.
use compute_contract_referen.Base.{
  arith, refl, Bool-cases, inl, inr, ap, subst, ◌≡◌, ◌∙◌, ℕ, zero, suc, ◌+◌, ◌/◌, ◌%◌, ◌^◌, ◌<◌,
  ◌≤◌, false, List, [], ◌∷◌, ◌++◌, ◌==◌, ltb, length, take, drop, All, length-append, drop-append,
  Text, Result, ok,
}
use compute_contract_referen.Base32.{base32_alphabet}
use compute_contract_referen.Base32.Decoded.{decode-encode, base32_alphabet-IsAlphabet}
use compute_contract_referen.Cid.{cid_bytes}
use compute_contract_referen.Cid.Digests.{IsDigest, cid_text}
use compute_contract_referen.Cbor.Values.{Value}
use compute_contract_referen.Car.{
  CarError, CarBlock, varint_from, varint_encode, read_varint, cid_to_raw_bytes, cid_from_raw_bytes,
  write_blocks, header_roots, import_block, import_blocks, cbor_decode, import_car,
}
use compute_contract_referen.Car.Varints.{read_varint-varint_encode}

-- A digest with the bytes of its block.
abbrev pub Content : Type 0
Content = List ℕ × List ℕ

abbrev pub blocks_of : List Content → List CarBlock
blocks_of [] = []
blocks_of ((digest, bytes) ∷ contents) =
    record { cid = cid_text digest; bytes = bytes } ∷ blocks_of contents

-- The lengths are below 2^31.
pub record IsStorable (content : Content) : Type 0 where
  pub digest : IsDigest content.0
  pub small : length content.1 + 36 < 2 ^ 31

take-append : (xs ys : List ℕ) → take (length xs) (xs ++ ys) ≡ xs
take-append [] ys = refl
take-append (x ∷ xs) ys = ap (λ l. x ∷ l) (take-append xs ys)

pub raw_bytes :
    (digest : List ℕ) → IsDigest digest → cid_to_raw_bytes (cid_text digest) ≡ ok (cid_bytes digest)
unfolding cid_to_raw_bytes
raw_bytes digest h =
    rw
      (decode-encode base32_alphabet base32_alphabet-IsAlphabet (cid_bytes digest)
        (omega arith, (omega arith, (omega arith, (omega arith, h.are_bytes)))))
      refl

-- The bytes of the blocks.
unfoldable pub combined : Content → List ℕ
combined (digest, bytes) = cid_bytes digest ++ bytes

unfoldable pub parts : List Content → List ℕ
unfolding combined
parts [] = []
parts (content ∷ contents) =
    varint_encode (length (combined content)) ++ (combined content ++ parts contents)

pub write_blocks_lem :
    (contents : List Content)
    → All IsStorable contents
    → write_blocks (blocks_of contents) ≡ ok (parts contents)
unfolding write_blocks parts combined
write_blocks_lem [] h = refl
write_blocks_lem ((digest, bytes) ∷ contents) (storable, h) =
    rw (raw_bytes digest (storable.digest), write_blocks_lem contents h) refl

varint_head : (n : ℕ) → (b : ℕ) × (tail : List ℕ) × (varint_encode n ≡ b ∷ tail)
unfolding varint_encode varint_from
varint_head n = elim (Bool-cases (ltb 0x7f n)) [
  | inl longer ↦ (n % 128 + 128, varint_from 3 (n % 2 ^ 32 / 128), rw longer refl)
  | inr done ↦ (n % 128, [], rw done refl)
]

-- One block off the file.
one_block :
    (later : List ℕ → Result CarError (List CarBlock)) (block rest : List ℕ)
    (blocks : List CarBlock)
    → 36 ≤ length block
    → later rest ≡ ok blocks
    → import_block later (length block) (block ++ rest)
      ≡ ok (record { cid = cid_from_raw_bytes (take 36 block); bytes = drop 36 block } ∷ blocks)
unfolding import_block
one_block later block rest blocks long ih =
    let some_bytes : (length block == 0) ≡ false = ground arith in
    let enough : ltb (length block) 36 ≡ false = ground arith in
    rw (some_bytes, import_block, take-append block rest, enough, drop-append block rest, ih)
      (ap (λ l. ok (record { cid = cid_from_raw_bytes (take 36 l); bytes = drop 36 l } ∷ blocks))
        (take-append block rest))

import_round :
    (fuel b : ℕ) (tail block rest : List ℕ) (blocks : List CarBlock)
    → read_varint (b ∷ tail) ≡ ok (length block, block ++ rest)
    → 36 ≤ length block
    → import_blocks fuel rest ≡ ok blocks
    → import_blocks (suc fuel) (b ∷ tail)
      ≡ ok (record { cid = cid_from_raw_bytes (take 36 block); bytes = drop 36 block } ∷ blocks)
import_round fuel b tail block rest blocks reads long ih =
    unfold import_blocks in rw reads (one_block (import_blocks fuel) block rest blocks long ih)

-- What a block is split into.
split_cid :
    (digest bytes : List ℕ)
    → IsDigest digest
    → take 36 (cid_bytes digest ++ bytes) ≡ cid_bytes digest
split_cid digest bytes h =
    let split : take (length digest) (digest ++ bytes) ≡ digest = take-append digest bytes in
    let at_32 : take 32 (digest ++ bytes) ≡ digest =
      subst (λ n. take n (digest ++ bytes) ≡ digest) (h.count) split in
    rw at_32 refl

split_bytes :
    (digest bytes : List ℕ) → IsDigest digest → drop 36 (cid_bytes digest ++ bytes) ≡ bytes
split_bytes digest bytes h =
    subst (λ n. drop n (digest ++ bytes) ≡ bytes) (h.count) (drop-append digest bytes)

imported_block :
    (fuel : ℕ) (content : Content) (rest : List ℕ) (blocks : List CarBlock)
    → IsStorable content
    → import_blocks fuel rest ≡ ok blocks
    → import_blocks
        (suc fuel)
        (varint_encode (length (combined content)) ++ (combined content ++ rest))
      ≡ ok (record { cid = cid_text (content.0); bytes = content.1 } ∷ blocks)
unfolding combined cid_from_raw_bytes
imported_block fuel (digest, bytes) rest blocks storable ih =
    let block = cid_bytes digest ++ bytes in
    let (b, tail, starts) = varint_head (length block) in
    let count : length block ≡ length bytes + 36 =
      omega (arith, length-append digest bytes, storable.digest.count) in
    let reads : read_varint (varint_encode (length block) ++ (block ++ rest))
        ≡ ok (length block, block ++ rest) =
      read_varint-varint_encode (length block) (block ++ rest)
        (omega (arith, count, storable.small)) in
    let nonempty : import_blocks (suc fuel) (b ∷ (tail ++ (block ++ rest)))
        ≡ ok (record { cid = cid_from_raw_bytes (take 36 block); bytes = drop 36 block } ∷ blocks) =
      import_round fuel b (tail ++ (block ++ rest)) block rest blocks
        (subst (λ l. read_varint (l ++ (block ++ rest)) ≡ ok (length block, block ++ rest)) starts
          reads)
        (omega (arith, count)) ih in
    ap (λ l. import_blocks (suc fuel) (l ++ (block ++ rest))) starts
    ∙ nonempty
    ∙ ap (λ l. ok (record { cid = cid_from_raw_bytes l; bytes = drop 36 block } ∷ blocks))
        (split_cid digest bytes (storable.digest))
    ∙ ap (λ l. ok (record { cid = cid_text digest; bytes = l } ∷ blocks))
        (split_bytes digest bytes (storable.digest))

-- Each block takes a byte at least.
parts_longer :
    (content : Content) (contents : List Content)
    → length (parts contents) < length (parts (content ∷ contents))
unfolding parts combined
parts_longer (digest, bytes) contents =
    let block = cid_bytes digest ++ bytes in
    omega (
      arith,
      length-append (varint_encode (length block)) (block ++ parts contents),
      length-append block (parts contents),
    )

-- The blocks, with fuel for each of their bytes.
pub import_parts :
    (contents : List Content) (fuel : ℕ)
    → All IsStorable contents
    → length (parts contents) ≤ fuel
    → import_blocks fuel (parts contents) ≡ ok (blocks_of contents)
unfolding parts
import_parts [] fuel h enough = unfold import_blocks in refl
import_parts (content ∷ contents) zero (storable, h) enough =
    let longer = parts_longer content contents in absurd (omega (arith, longer, enough))
import_parts (content ∷ contents) (suc fuel) (storable, h) enough =
    imported_block fuel content (parts contents) (blocks_of contents) storable
      (import_parts contents fuel h (omega (arith, parts_longer content contents, enough)))

pub import_whole :
    (buf header file_parts : List ℕ) (v : Value) (roots : List Text) (blocks : List CarBlock)
    → read_varint buf ≡ ok (length header, header ++ file_parts)
    → cbor_decode header ≡ ok v
    → header_roots v ≡ ok roots
    → import_blocks (length (header ++ file_parts)) file_parts ≡ ok blocks
    → import_car buf ≡ ok (roots, blocks)
import_whole buf header file_parts v roots blocks reads decoded found rest =
    unfold import_car in
    rw (reads, take-append header file_parts, decoded, found, drop-append header file_parts, rest)
      refl
