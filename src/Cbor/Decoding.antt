-- ===== src/Cbor/Decoding.antt =====
-- Decoding what was encoded.
use compute_contract_referen.Base.{
  arith, refl, ap, sym, subst, ◌≡◌, ◌≤◌, ◌<◌, ◌∙◌, ℕ, zero, suc, ◌+◌, true, false, List, [], ◌∷◌,
  ◌++◌, length, append_assoc, Result, ok, Text, text_eq, codes,
}
use compute_contract_referen.Hex.Decoded.{AreBytes}
use compute_contract_referen.Base32.{base32_alphabet}
use compute_contract_referen.Base32.Decoded.{decode-encode, base32_alphabet-IsAlphabet}
use compute_contract_referen.Cid.{cid_to_bytes, decoded}
use compute_contract_referen.Cbor.{CborError, pos, write_header}
use compute_contract_referen.Cbor.Headers.{read_header_small}
use compute_contract_referen.Cbor.Values.{
  Value, unsigned, negative, byte_string, text_string, array, object, cid_link, boolean, nothing,
  Elements, no_elements, element, Members, no_members, member, count_elements, count_members,
  join_members, encode_value, encode_elements, encode_members, encode_link, link_bytes, link_string,
}
use compute_contract_referen.Cbor.Decoder.{
  read_bytes, read_string, read_link, assign, decode_major, decode_value, decode_elements,
  decode_members,
}
use compute_contract_referen.Cbor.Fitting.{
  IsText, Fits, FitsElements, FitsMembers, fuel_for, fuel_for_elements, fuel_for_members, limit,
  encode_object_lem,
}

read_bytes-append :
    (bytes rest : List ℕ) → read_bytes (length bytes) (bytes ++ rest) ≡ ok (bytes, rest)
unfolding read_bytes
read_bytes-append [] rest = refl
read_bytes-append (b ∷ bytes) rest = rw (read_bytes-append bytes rest) refl

decode_header :
    (fuel major value : ℕ) (tail : List ℕ) (r : Result CborError (Value × List ℕ))
    → value < limit
    → decode_major (decode_elements fuel) (decode_members fuel) major (pos value) tail ≡ r
    → decode_value (suc fuel) (write_header major value ++ tail) ≡ r
unfolding decode_value
decode_header fuel major value tail r h e = rw (read_header_small major value tail h) e

decode_string :
    (fuel major : ℕ) (bytes rest : List ℕ) (r : Result CborError (Value × List ℕ))
    → length bytes < limit
    → decode_major
        (decode_elements fuel)
        (decode_members fuel)
        major
        (pos (length bytes))
        (bytes ++ rest)
      ≡ r
    → decode_value (suc fuel) ((write_header major (length bytes) ++ bytes) ++ rest) ≡ r
decode_string fuel major bytes rest r h e =
    ap (decode_value (suc fuel)) (append_assoc (write_header major (length bytes)) bytes rest)
    ∙ decode_header fuel major (length bytes) (bytes ++ rest) r h e

strings_read :
    (major : ℕ) (bytes rest : List ℕ)
    → read_string (pos (length bytes)) (bytes ++ rest) ≡ ok (bytes, rest)
unfolding read_string
strings_read major bytes rest = read_bytes-append bytes rest

-- The text that `cidLink` makes of bytes is read as these bytes.
pub cid_to_bytes-link_string :
    (raw : List ℕ) → AreBytes raw → cid_to_bytes (link_string raw) ≡ ok raw
unfolding cid_to_bytes decoded link_string
cid_to_bytes-link_string raw h =
    rw (decode-encode base32_alphabet base32_alphabet-IsAlphabet raw h) refl

encode_value-cid_link :
    (raw : List ℕ) → AreBytes raw → encode_value (cid_link raw) ≡ encode_link raw
unfolding encode_value link_bytes
encode_value-cid_link raw h =
    let read : link_bytes (link_string raw) ≡ raw =
      rw (cid_to_bytes-link_string raw h, link_bytes) refl in
    ap encode_link read

decode_link :
    (fuel : ℕ) (cid rest : List ℕ)
    → length cid + 1 < limit
    → decode_value (suc fuel) (encode_link cid ++ rest) ≡ ok (cid_link cid, rest)
unfolding encode_link decode_major read_link read_string
decode_link fuel cid rest h =
    let tail = write_header 2 (length cid + 1) ++ 0 ∷ cid in
    let inner : tail ++ rest ≡ write_header 2 (length cid + 1) ++ (0 ∷ cid ++ rest) =
      append_assoc (write_header 2 (length cid + 1)) (0 ∷ cid) rest in
    let head = read_header_small 2 (length cid + 1) (0 ∷ cid ++ rest) h in
    let counted : length (0 ∷ cid) ≡ length cid + 1 = omega arith in
    let taken : read_bytes (length cid + 1) (0 ∷ cid ++ rest) ≡ ok (0 ∷ cid, rest) =
      subst (λ (n : ℕ). read_bytes n (0 ∷ cid ++ rest) ≡ ok (0 ∷ cid, rest)) counted
        (read_bytes-append (0 ∷ cid) rest) in
    ap (decode_value (suc fuel)) (append_assoc (write_header 6 42) tail rest)
    ∙ decode_header fuel 6 42 (tail ++ rest) (ok (cid_link cid, rest)) (omega arith)
        (rw (inner, head, taken) refl)

member_bytes :
    (header key bytes others rest : List ℕ)
    → (header ++ (key ++ (bytes ++ others))) ++ rest
      ≡ (header ++ key) ++ (bytes ++ (others ++ rest))
member_bytes header key bytes others rest =
    append_assoc header (key ++ (bytes ++ others)) rest
    ∙ (ap (λ (l : List ℕ). header ++ l)
          (append_assoc key (bytes ++ others) rest
            ∙ ap (λ (l : List ℕ). key ++ l) (append_assoc bytes others rest))
        ∙ sym (append_assoc header key (bytes ++ (others ++ rest))))

assign_lem :
    (k : Text) (v : Value) (ms : Members)
    → text_eq k (codes "__proto__") ≡ false
    → assign k v ms ≡ member k v ms
unfolding assign
assign_lem k v ms named = rw named refl

decode_key :
    (fuel : ℕ) (key rest : List ℕ)
    → length key < limit
    → IsText key
    → decode_value (suc fuel) ((write_header 3 (length key) ++ key) ++ rest)
      ≡ ok (text_string key, rest)
unfolding decode_major
decode_key fuel key rest h text =
    decode_string fuel 3 key rest (ok (text_string key, rest)) h
      (rw (strings_read 3 key rest) (rw text refl))

mutual
  unfolding encode_value encode_link decode_value decode_major fuel_for Fits count_elements
      count_members join_members

  decode_any :
      (v : Value) (fuel : ℕ) (rest : List ℕ)
      → Fits v
      → fuel_for v ≤ fuel
      → decode_value fuel (encode_value v ++ rest) ≡ ok (v, rest)
  decode_any (unsigned n) zero rest h f = absurd (omega (arith, f))
  decode_any (unsigned n) (suc fuel) rest h f = decode_header fuel 0 n rest _ h refl
  decode_any (negative n) zero rest h f = absurd (omega (arith, f))
  decode_any (negative n) (suc fuel) rest h f = decode_header fuel 1 n rest _ h refl
  decode_any (byte_string bytes) zero rest h f = absurd (omega (arith, f))
  decode_any (byte_string bytes) (suc fuel) rest h f =
      decode_string fuel 2 bytes rest _ h (rw (strings_read 2 bytes rest) refl)
  decode_any (text_string text) zero rest h f = absurd (omega (arith, f))
  decode_any (text_string text) (suc fuel) rest (h, same) f =
      decode_string fuel 3 text rest (ok (text_string text, rest)) h
        (rw (strings_read 3 text rest) (rw same refl))
  decode_any (array vs) zero rest h f = absurd (omega (arith, f))
  decode_any (array vs) (suc fuel) rest (h, k) f =
      ap (decode_value (suc fuel))
        (append_assoc (write_header 4 (count_elements vs)) (encode_elements vs) rest)
      ∙ decode_header fuel 4 (count_elements vs) (encode_elements vs ++ rest) _ h
          (rw (decode_all_elements vs fuel rest k (omega (arith, f))) refl)
  decode_any (object ms) zero rest h f = absurd (omega (arith, f))
  decode_any (object ms) (suc fuel) rest (h, no_link, d, o, k) f =
      let bytes = join_members (encode_members ms) in
      ap (λ l. decode_value (suc fuel) (l ++ rest)) (encode_object_lem ms no_link d o)
      ∙ ap (decode_value (suc fuel)) (append_assoc (write_header 5 (count_members ms)) bytes rest)
      ∙ decode_header fuel 5 (count_members ms) (bytes ++ rest) _ h
          (rw (decode_all_members ms fuel rest k (omega (arith, f))) refl)
  decode_any (cid_link cid) zero rest h f = absurd (omega (arith, f))
  decode_any (cid_link cid) (suc fuel) rest (h, bytes) f =
      ap (λ l. decode_value (suc fuel) (l ++ rest)) (encode_value-cid_link cid bytes)
      ∙ decode_link fuel cid rest h
  decode_any (boolean true) zero rest h f = absurd (omega (arith, f))
  decode_any (boolean true) (suc fuel) rest h f = decode_header fuel 7 21 rest _ (omega arith) refl
  decode_any (boolean false) zero rest h f = absurd (omega (arith, f))
  decode_any (boolean false) (suc fuel) rest h f = decode_header fuel 7 20 rest _ (omega arith) refl
  decode_any nothing zero rest h f = absurd (omega (arith, f))
  decode_any nothing (suc fuel) rest h f = decode_header fuel 7 22 rest _ (omega arith) refl

  decode_all_elements :
      (vs : Elements) (fuel : ℕ) (rest : List ℕ)
      → FitsElements vs
      → fuel_for_elements vs ≤ fuel
      → decode_elements fuel (count_elements vs) (encode_elements vs ++ rest) ≡ ok (vs, rest)
  decode_all_elements no_elements fuel rest h f = refl
  decode_all_elements (element v vs) zero rest h f = absurd (omega (arith, f))
  decode_all_elements (element v vs) (suc fuel) rest (h, k) f =
      rw
        (
          append_assoc (encode_value v) (encode_elements vs) rest,
          decode_any v fuel (encode_elements vs ++ rest) h (omega (arith, f)),
          decode_all_elements vs fuel rest k (omega (arith, f)),
        )
        refl

  decode_all_members :
      (ms : Members) (fuel : ℕ) (rest : List ℕ)
      → FitsMembers ms
      → fuel_for_members ms ≤ fuel
      → decode_members fuel (count_members ms) (join_members (encode_members ms) ++ rest)
        ≡ ok (ms, rest)
  decode_all_members no_members fuel rest h f = refl
  decode_all_members (member k v ms) zero rest h f = absurd (omega (arith, f))
  decode_all_members (member k v ms) (suc zero) rest h f = absurd (omega (arith, f))
  decode_all_members (member k v ms) (suc (suc fuel)) rest (h, text, named, g, i) f =
      let others = join_members (encode_members ms) in
      rw
        (
          member_bytes (write_header 3 (length k)) k (encode_value v) others rest,
          decode_key fuel k (encode_value v ++ (others ++ rest)) h text,
          decode_any v (suc fuel) (others ++ rest) g (omega (arith, f)),
          decode_all_members ms (suc fuel) rest i (omega (arith, f)),
        )
        (rw (assign_lem k v ms named) refl)

-- What `encode_value` writes of a value that fits is decoded as the value.
pub decode_value-encode_value :
    (v : Value) (fuel : ℕ) (rest : List ℕ)
    → Fits v
    → fuel_for v ≤ fuel
    → decode_value fuel (encode_value v ++ rest) ≡ ok (v, rest)
decode_value-encode_value v fuel rest h f = decode_any v fuel rest h f
