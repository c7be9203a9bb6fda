-- ===== src/Json.antt =====
-- The values of JSON.parse: the bodies of requests and the operations that the DID directory stores.
-- A number is opaque here: no code that is modelled looks into one.
use compute_contract_referen.Base.{
  ℕ, Bool, true, false, Option, none, some, List, [], ◌∷◌, if◌then◌else◌, Text, text_eq,
}

mutual
  pub data Json : Type 0 where
    null : Json
    boolean : Bool → Json
    number : ℕ → Json
    string : Text → Json
    array : Items → Json
    object : Members → Json

  pub data Items : Type 0 where
    no_items : Items
    item : Json → Items → Items

  pub data Members : Type 0 where
    no_members : Members
    member : Text → Json → Members → Members

abbrev pub elements : Items → List Json
elements no_items = []
elements (item x items) = x ∷ elements items

unfoldable pub find_member : Text → Members → Option Json
unfolding text_eq
find_member key no_members = none
find_member key (member k v rest) = if text_eq k key then some v else find_member key rest

-- `value[key]`, with `none` for undefined
unfoldable pub field : Text → Json → Option Json
unfolding find_member
field key (object fields) = find_member key fields
field key _ = none

unfoldable pub drop_member : Text → Members → Members
unfolding text_eq
drop_member key no_members = no_members
drop_member key (member k v rest) =
    let others = drop_member key rest in if text_eq k key then others else member k v others

-- The rest of `const { [key]: _, ...rest } = value`
unfoldable pub without : Text → Json → Json
unfolding drop_member
without key (object fields) = object (drop_member key fields)
without key value = value

-- `Array.isArray(value)`
abbrev pub is_array : Option Json → Bool
is_array (some (array items)) = true
is_array _ = false

-- `typeof value === "object"`
abbrev pub is_object : Option Json → Bool
is_object (some null) = true
is_object (some (array items)) = true
is_object (some (object fields)) = true
is_object _ = false

-- `typeof value === "string"`
abbrev pub is_string : Option Json → Bool
is_string (some (string text)) = true
is_string _ = false

-- `value === null`
abbrev pub is_null : Option Json → Bool
is_null (some null) = true
is_null _ = false

-- `value === undefined`
abbrev pub is_undefined : Option Json → Bool
is_undefined none = true
is_undefined (some value) = false

-- `value === text`
unfoldable pub is_text : Text → Option Json → Bool
unfolding text_eq
is_text text (some (string other)) = text_eq other text
is_text text _ = false
