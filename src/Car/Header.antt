-- ===== src/Car/Header.antt =====
-- The header of a CAR file: what `exportCar` writes of it and `importCar` reads.
use compute_contract_referen.Base.{
  arith, refl, subst, ◌≡◌, ℕ, ◌*◌, ◌≤◌, List, [], ◌∷◌, ◌++◌, length, length-append, append-nil,
  text_lt, text_eq, codes, ok,
}
use compute_contract_referen.Cid.{cid_bytes}
use compute_contract_referen.Cid.Digests.{cid_text}
use compute_contract_referen.Cbor.Values.{
  get_member, link_or_object, link_text, Value, encode_value, sort_keys, key_before, count_elements,
  count_members, join_members,
}
use compute_contract_referen.Cbor.Decoder.{decode_value}
use compute_contract_referen.Cbor.{write_header}
use compute_contract_referen.Cbor.Texts.{decode_text}
use compute_contract_referen.Cbor.Fitting.{IsText, is_key, Fits, fuel_for}
use compute_contract_referen.Cbor.Decoding.{decode_value-encode_value}
use compute_contract_referen.Car.{
  varint_encode, read_varint, cid_from_raw_bytes, car_header, header_roots, root_elements,
  cbor_decode,
}
use compute_contract_referen.Car.Varints.{read_varint-varint_encode}

pub header_length :
    (root : List ℕ) → length root ≡ 36 → length (encode_value (car_header root)) ≡ 55
unfolding encode_value link_or_object link_text car_header sort_keys count_elements count_members
    join_members write_header
header_length root h =
    let whole = length-append root (codes "gversion" ++ 1 ∷ []) in
    rw (h, append-nil root) (omega (arith, whole, h))

pub header_lem :
    (root : List ℕ) (rest : List ℕ)
    → length root ≡ 36
    → read_varint (varint_encode (length (encode_value (car_header root))) ++ rest)
      ≡ ok (length (encode_value (car_header root)), rest)
header_lem root rest h =
    read_varint-varint_encode (length (encode_value (car_header root))) rest
      (omega (arith, header_length root h))

roots-IsText : IsText (codes "roots")
unfolding decode_text
roots-IsText = refl

version-IsText : IsText (codes "version")
unfolding decode_text
version-IsText = refl

header-Fits : (root : List ℕ) → length root ≡ 36 → Fits (car_header root)
unfolding Fits link_text is_key text_eq car_header count_elements count_members
header-Fits root h = (
  omega arith,
  refl,
  (refl, (refl, tt)),
  (unfold key_before text_lt in refl, tt),
  (
    omega arith,
    roots-IsText,
    refl,
    (omega arith, (omega (arith, h), tt)),
    (omega arith, version-IsText, refl, omega arith, tt),
  ),
)

header_fuel : (root : List ℕ) → fuel_for (car_header root) ≤ 9
unfolding fuel_for car_header
header_fuel root = omega arith

decoded_whole :
    (bytes : List ℕ) (v : Value)
    → decode_value (2 * length bytes) (bytes ++ []) ≡ ok (v, [])
    → cbor_decode bytes ≡ ok v
decoded_whole bytes v decoded =
    let whole : decode_value (2 * length bytes) bytes ≡ ok (v, []) =
      subst (λ l. decode_value (2 * length bytes) l ≡ ok (v, [])) (append-nil bytes) decoded in
    unfold cbor_decode in rw (whole, cbor_decode) refl

pub cbor_decode_lem :
    (root : List ℕ)
    → length root ≡ 36
    → cbor_decode (encode_value (car_header root)) ≡ ok (car_header root)
cbor_decode_lem root h =
    let enough : fuel_for (car_header root) ≤ 2 * length (encode_value (car_header root)) =
      omega (arith, header_length root h, header_fuel root) in
    let decoded =
      decode_value-encode_value (car_header root) (2 * length (encode_value (car_header root))) []
        (header-Fits root h) enough in
    decoded_whole (encode_value (car_header root)) (car_header root) decoded

pub roots_lem :
    (digest : List ℕ) → header_roots (car_header (cid_bytes digest)) ≡ ok (cid_text digest ∷ [])
unfolding header_roots car_header root_elements get_member cid_from_raw_bytes
roots_lem digest = refl
