-- ===== src/Car/Collecting.antt =====
-- `collectAllBlocks` and `exportCar` of car.ts. The block store is a function. `seen` is shared by the
-- calls, and keeps what a call that throws has added. A block is decoded with fuel for two items a byte; a
-- block that cannot be decoded has no children.
use compute_contract_referen.Base.{
  ℕ, zero, suc, ◌*◌, Bool, true, false, Option, none, some, List, [], ◌∷◌, ◌++◌, length, Text,
  includes, codes, Result, ok, err, ◌>>=◌, if◌then◌else◌,
}
use compute_contract_referen.Cbor.Values.{
  get_member, Value, text_string, object, cid_link, nothing, array, Elements, no_elements, element,
}
use compute_contract_referen.Cbor.Decoder.{decode_value}
use compute_contract_referen.Car.{
  CarError, block_not_found, out_of_fuel, CarBlock, cid_from_raw_bytes, write_car,
}

-- What the walk over a block comes to: a CID that it follows, or an expression that throws.
pub data Child : Type 0 where
  child : Text → Child
  throws : Child

-- `x.$link`, which the store finds no block for unless it is a string
unfoldable pub link_of : Value → Child
link_of (text_string cid) = child cid
link_of _ = throws

-- `if (x && typeof x === "object" && "$link" in x)`
unfoldable pub value_link : Value → List Child
unfolding get_member link_of cid_from_raw_bytes
value_link (cid_link raw) = child (cid_from_raw_bytes raw) ∷ []
value_link (object ms) = elim (get_member (codes "$link") ms) [
  | none ↦ []
  | some v ↦ link_of v ∷ []
]
value_link _ = []

-- `entry.v`, which throws where the entry is null
unfoldable pub entry_link : Value → List Child
unfolding get_member value_link
entry_link nothing = throws ∷ []
entry_link (object ms) = elim (get_member (codes "v") ms) [ none ↦ [] | some v ↦ value_link v ]
entry_link _ = []

unfoldable pub entry_links : Elements → List Child
unfolding entry_link
entry_links no_elements = []
entry_links (element v vs) = entry_link v ++ entry_links vs

-- The entries of `obj.e`, where that is an array
unfoldable pub array_links : Value → List Child
unfolding entry_links
array_links (array entries) = entry_links entries
array_links _ = []

unfoldable pub member_links : (Value → List Child) → Option Value → List Child
member_links links none = []
member_links links (some v) = links v

-- What the walk over a decoded block follows, in its order.
unfoldable pub value_children : Value → List Child
unfolding get_member value_link array_links member_links
value_children (object ms) =
    member_links value_link (get_member (codes "l") ms)
    ++ member_links array_links (get_member (codes "e") ms)
value_children nothing = throws ∷ []
value_children _ = []

unfoldable pub children : List ℕ → List Child
unfolding decode_value value_children
children bytes = elim (decode_value (2 * length bytes) bytes) [
  | err _ ↦ []
  | ok (v, _) ↦ value_children v
]

-- The result of a call, and `seen` after it.
abbrev pub Walked : Type 0
Walked = Result CarError (List CarBlock) × List Text

unfoldable pub is_fuel : CarError → Bool
is_fuel out_of_fuel = true
is_fuel _ = false

-- What a call for a child gives, and the rest of the walk. What the call throws is caught, with the blocks
-- so far; the end of the model's fuel is passed on.
unfoldable pub after_child : (List Text → Walked) → Walked → Walked
unfolding is_fuel
after_child rest (err e, later) = if is_fuel e then (err e, later) else (ok [], later)
after_child rest (ok blocks, later) =
    let (more, last) = rest later in (more >>= (λ others. ok (blocks ++ others)), last)

-- The walk over the children.
unfoldable pub walk : (Text → List Text → Walked) → List Child → List Text → Walked
unfolding after_child
walk collect [] seen = (ok [], seen)
walk collect (throws ∷ _) seen = (ok [], seen)
walk collect (child cid ∷ rest) seen = after_child (walk collect rest) (collect cid seen)

module _ (get : Text → Option (List ℕ)) where
  -- `collectAllBlocks`
  unfoldable pub collect : ℕ → Text → List Text → Walked
  unfolding children walk
  collect zero cid seen = (err out_of_fuel, seen)
  collect (suc fuel) cid seen = elim (includes seen cid) [
    | true ↦ (ok [], seen)
    | false ↦ elim (get cid) [
      | none ↦ (err (block_not_found cid), cid ∷ seen)
      | some bytes ↦
          let (more, later) = walk (collect fuel) (children bytes) (cid ∷ seen) in
          (more >>= (λ blocks. ok (record { cid = cid; bytes = bytes } ∷ blocks)), later)
    ]
  ]

  -- `exportCar`
  unfoldable pub export_car : ℕ → Text → Result CarError (List ℕ)
  unfolding collect write_car
  export_car fuel root = (collect fuel root []).0 >>= write_car root
