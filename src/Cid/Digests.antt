-- ===== src/Cid/Digests.antt =====
-- CIDs and the digests that they are made of.
use compute_contract_referen.Base.{
  arith, refl, ap, ◌≡◌, ℕ, zero, suc, true, List, [], ◌∷◌, length, Text, take, ok,
}
use compute_contract_referen.Hex.Decoded.{AreBytes}
use compute_contract_referen.Base32.{base32_alphabet, encode}
use compute_contract_referen.Base32.Decoded.{decode-encode, base32_alphabet-IsAlphabet}
use compute_contract_referen.Cid.{
  cid_bytes, cid_from_digest, cid_to_bytes, digest_of, cid_digest, valid_bytes, is_valid_cid,
  decoded,
}

-- A digest of SHA-256.
pub record IsDigest (digest : List ℕ) : Type 0 where
  pub are_bytes : AreBytes digest
  pub count : length digest ≡ 32

-- The CID of a digest.
abbrev pub cid_text : List ℕ → Text
cid_text digest = b'b' ∷ encode base32_alphabet (cid_bytes digest)

pub cid_from_digest_lem :
    (digest : List ℕ) → IsDigest digest → cid_from_digest digest ≡ ok (cid_text digest)
unfolding cid_from_digest
cid_from_digest_lem digest h = rw (h.count) refl

pub cid_to_bytes_lem :
    (digest : List ℕ) → IsDigest digest → cid_to_bytes (cid_text digest) ≡ ok (cid_bytes digest)
unfolding cid_to_bytes decoded
cid_to_bytes_lem digest h =
    rw
      (decode-encode base32_alphabet base32_alphabet-IsAlphabet (cid_bytes digest)
        (omega arith, (omega arith, (omega arith, (omega arith, h.are_bytes)))))
      refl

take_whole : (n : ℕ) (s : List ℕ) → length s ≡ n → take n s ≡ s
take_whole zero [] h = refl
take_whole zero (c ∷ s) h = absurd (omega arith)
take_whole (suc n) [] h = refl
take_whole (suc n) (c ∷ s) h = ap (λ l. c ∷ l) (take_whole n s (omega arith))

digest_of_lem : (digest : List ℕ) → IsDigest digest → digest_of (cid_bytes digest) ≡ ok digest
unfolding digest_of
digest_of_lem digest h = rw (h.count, take_whole 32 digest (h.count)) refl

valid_bytes_lem : (digest : List ℕ) → IsDigest digest → valid_bytes (cid_bytes digest) ≡ true
unfolding valid_bytes
valid_bytes_lem digest h = rw (h.count) refl

-- The CID that is made of a SHA-256 digest is valid, and its digest is the one it was made of.
pub cid_digest-cid_from_digest :
    (digest : List ℕ)
    → IsDigest digest
    → (cid : Text) × (cid_from_digest digest ≡ ok cid)
      × (is_valid_cid cid ≡ true)
      × (cid_digest cid ≡ ok digest)
unfolding is_valid_cid cid_digest encode
cid_digest-cid_from_digest digest h = (
  cid_text digest,
  cid_from_digest_lem digest h,
  rw (cid_to_bytes_lem digest h) (valid_bytes_lem digest h),
  rw (cid_to_bytes_lem digest h) (digest_of_lem digest h),
)
