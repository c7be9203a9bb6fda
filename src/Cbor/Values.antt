-- ===== src/Cbor/Values.antt =====
-- `encodeValue` and `encode` of src/typescript/lib/hono-factory-atproto-repo/cbor/dag-cbor.ts. A string is
-- the UTF-8 that TextEncoder gives for it, an object the list of its keys with their values, in the order
-- in which they are assigned (its prototype is left out), and `cid_link` the object that `cidLink` makes
-- of the bytes of a CID.
use compute_contract_referen.Base.{
  ℕ, suc, ◌+◌, ◌^◌, Bool, true, false, not, ◌||◌, Option, none, some, List, [], ◌∷◌, ◌++◌, ◌==◌,
  ltb, if◌then◌else◌, length, Text, codes, text_eq, text_lt, Result, ok, err,
}
use compute_contract_referen.Base32.{base32_alphabet, encode}
use compute_contract_referen.Cid.{cid_to_bytes}
use compute_contract_referen.Cbor.{CborError, unsupported, write_header}

-- An integer is `unsigned n`, or `negative n` for - 1 - n.
mutual
  pub data Value : Type 0 where
    unsigned : ℕ → Value
    negative : ℕ → Value
    byte_string : List ℕ → Value
    text_string : Text → Value
    array : Elements → Value
    object : Members → Value
    cid_link : List ℕ → Value
    boolean : Bool → Value
    nothing : Value

  pub data Elements : Type 0 where
    no_elements : Elements
    element : Value → Elements → Elements

  pub data Members : Type 0 where
    no_members : Members
    member : Text → Value → Members → Members

unfoldable pub count_elements : Elements → ℕ
count_elements no_elements = 0
count_elements (element v vs) = suc (count_elements vs)

unfoldable pub count_members : Members → ℕ
count_members no_members = 0
count_members (member k v ms) = suc (count_members ms)

-- `obj[name]`, where a later assignment replaces an earlier one.
unfoldable pub get_member : Text → Members → Option Value
unfolding text_eq
get_member name no_members = none
get_member name (member k v rest) = elim (get_member name rest) [
  | some w ↦ some w
  | none ↦ if text_eq k name then some v else none
]

abbrev pub text_of : Value → Option Text
text_of (text_string t) = some t
text_of _ = none

-- `val.$link`, if that is a string
unfoldable pub link_text : Members → Option Text
unfolding get_member
link_text ms = elim (get_member (codes "$link") ms) [ none ↦ none | some v ↦ text_of v ]

-- `cidToBytes(cid)`, and nothing where it throws
unfoldable pub link_bytes : Text → List ℕ
unfolding cid_to_bytes
link_bytes cid = elim (cid_to_bytes cid) [ err _ ↦ [] | ok bytes ↦ bytes ]

-- The `$link` of the object that `cidLink` makes of bytes
unfoldable pub link_string : List ℕ → Text
unfolding encode
link_string raw = b'b' ∷ encode base32_alphabet raw

-- Strings are compared by UTF-16 code units: those of a character beyond the others, whose UTF-8 starts
-- with F0 to F4, come before those of U+E000 to U+FFFF, whose UTF-8 starts with EE or EF.
abbrev pub code_unit_order : Text → Text
code_unit_order [] = []
code_unit_order (b ∷ text) =
    (if b == 0xee then 0xf6 else if b == 0xef then 0xf7 else b) ∷ code_unit_order text

-- The order of keys: by the length of their UTF-8, and then as strings.
unfoldable pub key_before : Text → Text → Bool
unfolding text_lt
key_before a b =
    if length a == length b
    then text_lt (code_unit_order a) (code_unit_order b)
    else ltb (length a) (length b)

-- `keys.sort`, of keys that are encoded with their values
unfoldable pub insert_key : Text → List ℕ → List (Text × List ℕ) → List (Text × List ℕ)
unfolding key_before
insert_key k bytes [] = (k, bytes) ∷ []
insert_key k bytes ((j, other) ∷ rest) =
    let later = insert_key k bytes rest in
    if key_before j k then (j, other) ∷ later else (k, bytes) ∷ (j, other) ∷ rest

unfoldable pub sort_keys : List (Text × List ℕ) → List (Text × List ℕ)
unfolding insert_key
sort_keys [] = []
sort_keys ((k, bytes) ∷ rest) = insert_key k bytes (sort_keys rest)

unfoldable pub has_key : Text → List (Text × List ℕ) → Bool
unfolding text_eq
has_key k [] = false
has_key k ((j, _) ∷ rest) = text_eq j k || has_key k rest

-- `Object.keys(val)` with their values: the last assignment of each key.
unfoldable pub own_keys : List (Text × List ℕ) → List (Text × List ℕ)
unfolding has_key
own_keys [] = []
own_keys ((k, bytes) ∷ rest) =
    let later = own_keys rest in if has_key k rest then later else (k, bytes) ∷ later

unfoldable pub join_members : List (Text × List ℕ) → List ℕ
unfolding write_header
join_members [] = []
join_members ((k, bytes) ∷ rest) = write_header 3 (length k) ++ (k ++ (bytes ++ join_members rest))

-- A CID link: tag 42, around the bytes behind a zero.
unfoldable pub encode_link : List ℕ → List ℕ
unfolding write_header
encode_link cid = write_header 6 42 ++ (write_header 2 (length cid + 1) ++ 0 ∷ cid)

-- An object that is no link, of its members' bytes
unfoldable pub encode_object : List (Text × List ℕ) → List ℕ
unfolding write_header own_keys sort_keys join_members
encode_object entries =
    let keys = sort_keys (own_keys entries) in write_header 5 (length keys) ++ join_members keys

-- `encodeValue` of an object, by its `$link`
unfoldable pub link_or_object : Option Text → List (Text × List ℕ) → List ℕ
unfolding encode_link link_bytes encode_object
link_or_object (some cid) entries = encode_link (link_bytes cid)
link_or_object none entries = encode_object entries

-- `encodeValue`: the bytes that it writes, where nothing throws.
unfoldable mutual
  pub encode_value : Value → List ℕ
  encode_value (unsigned n) = write_header 0 n
  encode_value (negative n) = write_header 1 n
  encode_value (byte_string bytes) = write_header 2 (length bytes) ++ bytes
  encode_value (text_string text) = write_header 3 (length text) ++ text
  encode_value (array vs) = write_header 4 (count_elements vs) ++ encode_elements vs
  encode_value (object ms) = link_or_object (link_text ms) (encode_members ms)
  encode_value (cid_link raw) = encode_link (link_bytes (link_string raw))
  encode_value (boolean b) = write_header 7 (if b then 21 else 20)
  encode_value nothing = write_header 7 22

  pub encode_elements : Elements → List ℕ
  encode_elements no_elements = []
  encode_elements (element v vs) = encode_value v ++ encode_elements vs

  pub encode_members : Members → List (Text × List ℕ)
  encode_members no_members = []
  encode_members (member k v ms) = (k, encode_value v) ∷ encode_members ms

-- `cidToBytes` throws
unfoldable pub is_no_cid : Text → Bool
unfolding cid_to_bytes
is_no_cid cid = elim (cid_to_bytes cid) [ err _ ↦ true | ok _ ↦ false ]

unfoldable pub link_throws : Option Text → Bool → Bool
unfolding is_no_cid
link_throws (some cid) inside = is_no_cid cid
link_throws none inside = inside

-- Whether something in the value is no safe integer or no CID.
unfoldable mutual
  pub throws_on : Value → Bool
  throws_on (unsigned n) = not (ltb n (2 ^ 53))
  throws_on (negative n) = not (ltb (n + 1) (2 ^ 53))
  throws_on (array vs) = throws_on_elements vs
  throws_on (object ms) = link_throws (link_text ms) (throws_on_members ms)
  throws_on (byte_string _) = false
  throws_on (text_string _) = false
  throws_on (cid_link raw) = is_no_cid (link_string raw)
  throws_on (boolean _) = false
  throws_on nothing = false

  pub throws_on_elements : Elements → Bool
  throws_on_elements no_elements = false
  throws_on_elements (element v vs) = throws_on v || throws_on_elements vs

  pub throws_on_members : Members → Bool
  throws_on_members no_members = false
  throws_on_members (member k v ms) = throws_on v || throws_on_members ms

-- `encode`
unfoldable pub dag_cbor_encode : Value → Result CborError (List ℕ)
unfolding throws_on encode_value
dag_cbor_encode v = if throws_on v then err unsupported else ok (encode_value v)
