-- ===== src/Cbor/Encoded.antt =====
-- `encode` of a value that fits, and what `decode` makes of it.
use compute_contract_referen.Base.{arith, refl, ◌≡◌, ◌≤◌, ℕ, false, List, ◌++◌, ok}
use compute_contract_referen.Hex.Decoded.{AreBytes}
use compute_contract_referen.Cbor.Values.{
  Value, unsigned, negative, byte_string, text_string, array, object, cid_link, boolean, nothing,
  Elements, no_elements, element, Members, no_members, member, encode_value, throws_on, link_throws,
  is_no_cid, link_string, throws_on_elements, throws_on_members, dag_cbor_encode,
}
use compute_contract_referen.Cbor.Decoder.{decode_value}
use compute_contract_referen.Cbor.Fitting.{Fits, FitsElements, FitsMembers, fuel_for}
use compute_contract_referen.Cbor.Decoding.{decode_value-encode_value, cid_to_bytes-link_string}

is_no_cid-link_string : (raw : List ℕ) → AreBytes raw → is_no_cid (link_string raw) ≡ false
unfolding is_no_cid
is_no_cid-link_string raw h = rw (cid_to_bytes-link_string raw h, is_no_cid) refl

mutual
  unfolding throws_on link_throws Fits

  never_throws : (v : Value) → Fits v → throws_on v ≡ false
  never_throws (unsigned n) h = ground (arith, h)
  never_throws (negative n) h = ground (arith, h)
  never_throws (byte_string bytes) h = refl
  never_throws (text_string text) h = refl
  never_throws (array vs) (_, h) = no_element_throws vs h
  never_throws (object ms) (_, no_link, _, _, h) = rw no_link (no_member_throws ms h)
  never_throws (cid_link cid) (_, bytes) = is_no_cid-link_string cid bytes
  never_throws (boolean b) h = refl
  never_throws nothing h = refl

  no_element_throws : (vs : Elements) → FitsElements vs → throws_on_elements vs ≡ false
  no_element_throws no_elements h = refl
  no_element_throws (element v vs) (h, k) = rw (never_throws v h, no_element_throws vs k) refl

  no_member_throws : (ms : Members) → FitsMembers ms → throws_on_members ms ≡ false
  no_member_throws no_members h = refl
  no_member_throws (member k v ms) (_, _, _, h, i) =
      rw (never_throws v h, no_member_throws ms i) refl

-- A value is encoded, and decoded from its encoding whatever follows, with a unit of fuel for each level
-- and item, and the bytes that follow are left: where its numbers and lengths are below 2^31, its strings
-- are well-formed and start with no byte order mark, the CIDs of its links are bytes, and in each object the keys are distinct, in their
-- order and not `__proto__`, and `$link` is no string.
pub decode_value-dag_cbor_encode :
    (v : Value) (fuel : ℕ) (rest : List ℕ)
    → Fits v
    → fuel_for v ≤ fuel
    → (bytes : List ℕ) × (dag_cbor_encode v ≡ ok bytes)
      × (decode_value fuel (bytes ++ rest) ≡ ok (v, rest))
unfolding dag_cbor_encode
decode_value-dag_cbor_encode v fuel rest h f =
    (encode_value v, rw (never_throws v h) refl, decode_value-encode_value v fuel rest h f)
