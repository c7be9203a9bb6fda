-- ===== src/Cbor/Fitting.antt =====
-- The values of which the encoding is decoded as the value, and how their objects are encoded.
use compute_contract_referen.Base.{
  refl, ap, ◌≡◌, ◌<◌, ◌∙◌, ℕ, suc, ◌+◌, false, ◌++◌, length, Text, Bool, ◌||◌, text_eq, codes, none,
}
use compute_contract_referen.Hex.Decoded.{AreBytes}
use compute_contract_referen.Cbor.{write_header}
use compute_contract_referen.Cbor.Values.{
  Value, unsigned, negative, byte_string, text_string, array, object, cid_link, boolean, nothing,
  Elements, no_elements, element, Members, no_members, member, count_elements, count_members,
  key_before, insert_key, sort_keys, join_members, encode_value, encode_members, link_text, has_key,
  own_keys, encode_object, link_or_object,
}
use compute_contract_referen.Cbor.Texts.{decode_text}

-- The fuel that a value needs.
unfoldable mutual
  pub fuel_for : Value → ℕ
  fuel_for (unsigned n) = 1
  fuel_for (negative n) = 1
  fuel_for (byte_string bytes) = 1
  fuel_for (text_string text) = 1
  fuel_for (array vs) = suc (fuel_for_elements vs)
  fuel_for (object ms) = suc (fuel_for_members ms)
  fuel_for (cid_link cid) = 1
  fuel_for (boolean b) = 1
  fuel_for nothing = 1

  pub fuel_for_elements : Elements → ℕ
  fuel_for_elements no_elements = 0
  fuel_for_elements (element v vs) = suc (fuel_for v + fuel_for_elements vs)

  pub fuel_for_members : Members → ℕ
  fuel_for_members no_members = 0
  fuel_for_members (member k v ms) = suc (suc (fuel_for v + fuel_for_members ms))

abbrev pub limit : ℕ
limit = 2147483648

-- The text is one that TextDecoder gives back: well-formed, and without a byte order mark in front.
abbrev pub IsText : Text → Type 0
IsText text = decode_text text ≡ text

-- The members stand in the order of their keys.
abbrev pub InOrder : Members → Type 0
InOrder no_members = Unit
InOrder (member k v no_members) = Unit
InOrder (member k v (member j w ms)) = (key_before j k ≡ false) × InOrder (member j w ms)

-- Whether a member has the key.
unfoldable pub is_key : Text → Members → Bool
unfolding text_eq
is_key k no_members = false
is_key k (member j v ms) = text_eq j k || is_key k ms

-- No key stands twice.
abbrev pub AreDistinct : Members → Type 0
AreDistinct no_members = Unit
AreDistinct (member k v ms) = (is_key k ms ≡ false) × AreDistinct ms

-- Numbers and lengths are below 2 ^ 31, and the CIDs of links are bytes; strings are decoded as themselves; the members of an object are
-- distinct and in order, none is `__proto__`, and none makes it a link.
unfoldable mutual
  pub Fits : Value → Type 0
  Fits (unsigned n) = n < limit
  Fits (negative n) = n < limit
  Fits (byte_string bytes) = length bytes < limit
  Fits (text_string text) = (length text < limit) × IsText text
  Fits (array vs) = (count_elements vs < limit) × FitsElements vs
  Fits (object ms) =
      (count_members ms < limit)
      × (link_text ms ≡ none)
      × AreDistinct ms
      × InOrder ms
      × FitsMembers ms
  Fits (cid_link cid) = (length cid + 1 < limit) × AreBytes cid
  Fits (boolean b) = Unit
  Fits nothing = Unit

  pub FitsElements : Elements → Type 0
  FitsElements no_elements = Unit
  FitsElements (element v vs) = Fits v × FitsElements vs

  pub FitsMembers : Members → Type 0
  FitsMembers no_members = Unit
  FitsMembers (member k v ms) =
      (length k < limit)
      × IsText k
      × (text_eq k (codes "__proto__") ≡ false)
      × Fits v
      × FitsMembers ms

-- Members in order are encoded in that order.
sort_keys-encode_members :
    (ms : Members) → InOrder ms → sort_keys (encode_members ms) ≡ encode_members ms
unfolding sort_keys encode_members insert_key
sort_keys-encode_members no_members o = refl
sort_keys-encode_members (member k v no_members) o = refl
sort_keys-encode_members (member k v (member j w ms)) (before, o) =
    let sorted = sort_keys-encode_members (member j w ms) o in rw (sorted, before) refl

is_key-has_key : (k : Text) (ms : Members) → has_key k (encode_members ms) ≡ is_key k ms
unfolding has_key is_key encode_members
is_key-has_key k no_members = refl
is_key-has_key k (member j v ms) = rw (is_key-has_key k ms) refl

own_keys-encode_members :
    (ms : Members) → AreDistinct ms → own_keys (encode_members ms) ≡ encode_members ms
unfolding own_keys encode_members
own_keys-encode_members no_members d = refl
own_keys-encode_members (member k v ms) (new, d) =
    let not_later : has_key k (encode_members ms) ≡ false = is_key-has_key k ms ∙ new in
    rw (not_later, own_keys-encode_members ms d) refl

length-encode_members : (ms : Members) → length (encode_members ms) ≡ count_members ms
unfolding encode_members count_members
length-encode_members no_members = refl
length-encode_members (member k v ms) = ap suc (length-encode_members ms)

-- An object that is no link, with its members as they stand.
pub encode_object_lem :
    (ms : Members)
    → link_text ms ≡ none
    → AreDistinct ms
    → InOrder ms
    → encode_value (object ms)
      ≡ write_header 5 (count_members ms) ++ join_members (encode_members ms)
unfolding encode_value link_or_object encode_object
encode_object_lem ms no_link d o =
    rw
      (
        no_link,
        own_keys-encode_members ms d,
        sort_keys-encode_members ms o,
        length-encode_members ms,
      )
      refl
