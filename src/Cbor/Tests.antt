-- ===== src/Cbor/Tests.antt =====
-- Headers that are written and read, one of them beyond 2 ^ 31.
use compute_contract_referen.Base.{arith, refl, ◌≡◌, ℕ, List, err, [], ◌∷◌, ◌++◌, ok}
use compute_contract_referen.Cbor.{unsupported, negsuc, write_header, signed32, read_header}
use compute_contract_referen.Cbor.Headers.{read_header-write_header}
use compute_contract_referen.Base.{codes}
use compute_contract_referen.Cbor.Values.{
  text_string, cid_link, dag_cbor_encode, Value, unsigned, object, member, no_members, array,
  element, no_elements, nothing, encode_value, sort_keys,
}
use compute_contract_referen.Cbor.Decoder.{decode_value}
use compute_contract_referen.Cbor.Texts.{decode_text}
use compute_contract_referen.Cbor.Fitting.{IsText, Fits, fuel_for}
use compute_contract_referen.Cbor.Encoded.{decode_value-dag_cbor_encode}

read_header-write_header_example :
    read_header (write_header 2 70000 ++ 9 ∷ []) ≡ ok (2, signed32 70000, 9 ∷ [])
read_header-write_header_example = read_header-write_header 2 70000 (9 ∷ []) (omega arith)

reads_negative : read_header (write_header 0 4294967295) ≡ ok (0, negsuc 0, [])
unfolding read_header write_header signed32
reads_negative = refl

-- `{ "k": [1, null, cidLink(bytes 1, 113, 18)] }`
abbrev sample : Value
sample = object (
    member (codes "k")
      (array (
        element (unsigned 1)
          (element nothing (element (cid_link (1 ∷ 113 ∷ 18 ∷ [])) no_elements))))
      no_members)

k-IsText : IsText (codes "k")
unfolding decode_text
k-IsText = refl

sample-Fits : Fits sample
unfolding Fits compute_contract_referen.Cbor.Values.count_members
    compute_contract_referen.Cbor.Values.count_elements
    compute_contract_referen.Cbor.Values.link_text compute_contract_referen.Cbor.Fitting.is_key
    compute_contract_referen.Base.text_eq
sample-Fits = (
  omega arith,
  refl,
  (refl, tt),
  tt,
  (
    omega arith,
    k-IsText,
    refl,
    (
      omega arith,
      (omega arith, (tt, ((omega arith, (omega arith, (omega arith, (omega arith, tt)))), tt))),
    ),
    tt,
  ),
)

decode_value-dag_cbor_encode_example :
    (bytes : List ℕ) × (dag_cbor_encode sample ≡ ok bytes)
    × (decode_value 12 (bytes ++ 7 ∷ []) ≡ ok (sample, 7 ∷ []))
unfolding fuel_for
decode_value-dag_cbor_encode_example =
    decode_value-dag_cbor_encode sample 12 (7 ∷ []) sample-Fits (omega arith)

-- An object whose `$link` is a string is a link, and must be a CID.
no_cid :
    dag_cbor_encode (object (member (codes "$link") (text_string (codes "x")) no_members))
    ≡ err unsupported
unfolding dag_cbor_encode compute_contract_referen.Cbor.Values.link_text
    compute_contract_referen.Cbor.Values.link_throws
no_cid = refl

-- A byte order mark is left out, and a byte that begins no character replaced.
mark_dropped : decode_text (0xef ∷ 0xbb ∷ 0xbf ∷ codes "a") ≡ codes "a"
unfolding decode_text
mark_dropped = refl

byte_replaced : decode_text (0xff ∷ codes "a") ≡ 0xef ∷ 0xbf ∷ 0xbd ∷ codes "a"
unfolding decode_text
byte_replaced = refl

cut_short : decode_text (0xe2 ∷ 0x82 ∷ codes "a") ≡ 0xef ∷ 0xbf ∷ 0xbd ∷ codes "a"
unfolding decode_text
cut_short = refl

three_bytes : decode_text (0xe2 ∷ 0x82 ∷ 0xac ∷ []) ≡ 0xe2 ∷ 0x82 ∷ 0xac ∷ []
unfolding decode_text
three_bytes = refl

-- The keys of an object are sorted, shorter ones first.
keys_sorted :
    encode_value (object (member (codes "bb") nothing (member (codes "c") nothing no_members)))
    ≡ encode_value (object (member (codes "c") nothing (member (codes "bb") nothing no_members)))
unfolding encode_value sort_keys compute_contract_referen.Cbor.Values.link_text
    compute_contract_referen.Cbor.Values.link_or_object
keys_sorted = refl
