-- ===== src/Cid.antt =====
-- CIDs: src/typescript/lib/hono-factory-atproto-repo/util/cid.ts. A digest is a list of bytes, and a CID
-- its text.
pub mod Digests
mod Tests
use compute_contract_referen.Base.{
  ℕ, zero, suc, ◌+◌, Bool, true, false, not, ◌&&◌, none, some, List, [], ◌∷◌, ◌++◌, ◌==◌, ltb,
  if◌then◌else◌, length, take, drop, get_elem?, Text, text_eq, codes, starts_with, Result, ok, err,
  ◌>>=◌,
}
use compute_contract_referen.Base32.{Base32Error, base32_alphabet, encode, decode}

abbrev pub dag_cbor_codec : ℕ
dag_cbor_codec = 0x71

abbrev pub sha256_code : ℕ
sha256_code = 0x12

abbrev pub sha256_digest_len : ℕ
sha256_digest_len = 32

abbrev pub cidv1_header_len : ℕ
cidv1_header_len = 4

abbrev pub cidv1_bytes_len : ℕ
cidv1_bytes_len = cidv1_header_len + sha256_digest_len

pub data CidError : Type 0 where
  digest_length : ℕ → CidError
  no_multibase : CidError
  bad_base32 : Base32Error → CidError
  too_short : ℕ → CidError
  not_cidv1 : CidError
  not_dag_cbor : CidError
  not_sha256 : CidError

-- The bytes that are filled in, for a digest of the right length
abbrev pub cid_bytes : List ℕ → List ℕ
cid_bytes digest = 0x01 ∷ dag_cbor_codec ∷ sha256_code ∷ sha256_digest_len ∷ digest

-- `cidFromDigest`
unfoldable pub cid_from_digest : List ℕ → Result CidError Text
unfolding encode
cid_from_digest digest =
    if length digest == sha256_digest_len
    then ok (b'b' ∷ encode base32_alphabet (cid_bytes digest))
    else err (digest_length (length digest))

-- `base32Decode`, which throws an error of its own
unfoldable pub decoded : Result Base32Error (List ℕ) → Result CidError (List ℕ)
decoded (err e) = err (bad_base32 e)
decoded (ok bytes) = ok bytes

-- `cidToBytes`
unfoldable pub cid_to_bytes : Text → Result CidError (List ℕ)
unfolding starts_with decode decoded
cid_to_bytes cid =
    if starts_with cid (codes "b")
    then decoded (decode base32_alphabet (drop 1 cid))
    else err no_multibase

-- `raw[i] === n`
unfoldable pub byte_is : List ℕ → ℕ → ℕ → Bool
byte_is raw i n = elim (get_elem? raw i) [ none ↦ false | some b ↦ b == n ]

-- The checks of `cidDigest`, of the bytes of a CID
unfoldable pub digest_of : List ℕ → Result CidError (List ℕ)
unfolding byte_is
digest_of raw =
    if ltb (length raw) cidv1_bytes_len
    then err (too_short (length raw))
    else if not (byte_is raw 0 0x01)
    then err not_cidv1
    else if not (byte_is raw 1 dag_cbor_codec)
    then err not_dag_cbor
    else if not (byte_is raw 2 sha256_code)
    then err not_sha256
    else ok (take sha256_digest_len (drop cidv1_header_len raw))

-- `cidDigest`
unfoldable pub cid_digest : Text → Result CidError (List ℕ)
unfolding cid_to_bytes digest_of
cid_digest cid = cid_to_bytes cid >>= digest_of

-- What `isValidCid` asks of the bytes of a CID
unfoldable pub valid_bytes : List ℕ → Bool
unfolding byte_is
valid_bytes raw =
    length raw == cidv1_bytes_len
    && (byte_is raw 0 0x01
        && (byte_is raw 1 dag_cbor_codec
            && (byte_is raw 2 sha256_code && byte_is raw 3 sha256_digest_len)))

-- `isValidCid`
unfoldable pub is_valid_cid : Text → Bool
unfolding cid_to_bytes valid_bytes
is_valid_cid s = elim (cid_to_bytes s) [ err _ ↦ false | ok raw ↦ valid_bytes raw ]

-- `cidEquals`, with `bytesEqual`
unfoldable pub cid_equals : Text → Text → Result CidError Bool
unfolding cid_to_bytes text_eq
cid_equals a b = cid_to_bytes a >>= (λ x. cid_to_bytes b >>= (λ y. ok (text_eq x y)))
