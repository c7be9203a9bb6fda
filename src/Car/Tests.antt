-- ===== src/Car/Tests.antt =====
-- Runs of the CAR files.
use compute_contract_referen.Base.{
  arith, refl, ◌≡◌, ℕ, true, Option, none, some, List, [], ◌∷◌, ◌++◌, Text, text_eq, codes,
  includes, ok, err, ◌>>=◌, if◌then◌else◌,
}
use compute_contract_referen.Cid.Digests.{IsDigest, cid_text}
use compute_contract_referen.Mst.Serialized.{TreeNodeData}
use compute_contract_referen.Car.{
  varint_encode, read_varint, varint_too_long, negative_length, write_car, import_car,
  cid_from_raw_bytes,
}
use compute_contract_referen.Car.Collecting.{collect, child, value_children}
use compute_contract_referen.Car.Collected.{IsCollection, collect-IsCollection}
use compute_contract_referen.Car.Subtrees.{node_value, value_children-node_value}
use compute_contract_referen.Car.Blocks.{blocks_of, Content}
use compute_contract_referen.Car.Imported.{import_car-write_car}

three_hundred : varint_encode 300 ≡ 172 ∷ 2 ∷ []
unfolding varint_encode
three_hundred = refl

-- Four bytes and a half of ones are a negative number.
all_ones : read_varint (255 ∷ 255 ∷ 255 ∷ 255 ∷ 15 ∷ []) ≡ err (negative_length 4294967295)
unfolding read_varint
all_ones = refl

-- A varint that the file cuts off is what there is of it.
cut_off : read_varint (172 ∷ []) ≡ ok (44, [])
unfolding read_varint
cut_off = refl

endless :
    read_varint (128 ∷ 128 ∷ 128 ∷ 128 ∷ 128 ∷ 128 ∷ 128 ∷ 128 ∷ 128 ∷ 128 ∷ [])
    ≡ err varint_too_long
unfolding read_varint
endless = refl

abbrev eight : List ℕ
eight = 0xde ∷ 0xad ∷ 0xbe ∷ 0xef ∷ 0 ∷ 1 ∷ 254 ∷ 255 ∷ []

abbrev some_digest : List ℕ
some_digest = eight ++ eight ++ eight ++ eight

some_digest-IsDigest : IsDigest some_digest
some_digest-IsDigest = record {
  are_bytes = (
    omega arith,
    (
      omega arith,
      (
        omega arith,
        (
          omega arith,
          (
            omega arith,
            (
              omega arith,
              (
                omega arith,
                (
                  omega arith,
                  (
                    omega arith,
                    (
                      omega arith,
                      (
                        omega arith,
                        (
                          omega arith,
                          (
                            omega arith,
                            (
                              omega arith,
                              (
                                omega arith,
                                (
                                  omega arith,
                                  (
                                    omega arith,
                                    (
                                      omega arith,
                                      (
                                        omega arith,
                                        (
                                          omega arith,
                                          (
                                            omega arith,
                                            (
                                              omega arith,
                                              (
                                                omega arith,
                                                (
                                                  omega arith,
                                                  (
                                                    omega arith,
                                                    (
                                                      omega arith,
                                                      (
                                                        omega arith,
                                                        (
                                                          omega arith,
                                                          (
                                                            omega arith,
                                                            (
                                                            omega arith,
                                                            (omega arith, (omega arith, tt)),
                                                            ),
                                                          ),
                                                        ),
                                                      ),
                                                    ),
                                                  ),
                                                ),
                                              ),
                                            ),
                                          ),
                                        ),
                                      ),
                                    ),
                                  ),
                                ),
                              ),
                            ),
                          ),
                        ),
                      ),
                    ),
                  ),
                ),
              ),
            ),
          ),
        ),
      ),
    ),
  );
  count = refl;
}

abbrev contents : List Content
contents = (some_digest, 1 ∷ 2 ∷ []) ∷ (some_digest, []) ∷ []

import_car-write_car_example :
    (write_car (cid_text some_digest) (blocks_of contents) >>= import_car)
    ≡ ok (cid_text some_digest ∷ [], blocks_of contents)
import_car-write_car_example = import_car-write_car some_digest contents some_digest-IsDigest (
  record { digest = some_digest-IsDigest; small = omega arith },
  (record { digest = some_digest-IsDigest; small = omega arith }, tt),
)

-- A store with one block: an object whose left subtree it does not have.
abbrev lone : List ℕ
lone = 0xa1 ∷ 0x61 ∷ b'l' ∷ 0xd8 ∷ 0x2a ∷ 0x43 ∷ 0 ∷ 1 ∷ 2 ∷ []

abbrev store : Text → Option (List ℕ)
store cid = if text_eq (codes "root") cid then some lone else none

store-HasKeys :
    (cid : Text) (bytes : List ℕ) → store cid ≡ some bytes → includes (codes "root" ∷ []) cid ≡ true
unfolding includes
store-HasKeys cid bytes h = ground (arith, h)

-- The block that is missing ends the walk, and is no error.
lone_collected :
    (collect store 3 (codes "root") []).0 ≡ ok (record { cid = codes "root"; bytes = lone } ∷ [])
unfolding collect includes compute_contract_referen.Cbor.read_header
    compute_contract_referen.Cbor.Decoder.decode_major compute_contract_referen.Cbor.Decoder.assign
lone_collected = refl

collect-IsCollection_example :
    IsCollection store (codes "root" ∷ []) (codes "root") ((collect store 2 (codes "root") []).0)
collect-IsCollection_example =
    collect-IsCollection store (codes "root" ∷ []) store-HasKeys 2 (codes "root") (omega arith)

-- A node whose entry has a subtree, which is not followed.
abbrev node : TreeNodeData
node = record {
  l = none;
  e = record { p = 0; k = codes "k"; v = codes "value"; t = some (codes "subtree") } ∷ [];
}

value_children-node_value_example :
    value_children (node_value (λ cid. cid) node) ≡ child (cid_from_raw_bytes (codes "value")) ∷ []
value_children-node_value_example = value_children-node_value (λ cid. cid) node
