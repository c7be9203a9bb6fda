-- ===== src/Directory/Tests.antt =====
-- Runs of the directory on small logs, with an encoding of operations that keeps their prev alone.
use compute_contract_referen.Base.{
  arith, refl, ap, sym, ◌≡◌, ◌∙◌, inl, inr, ℕ, zero, suc, Bool, true, false, ◌==◌, Bool-cases,
  Option, Option-cases, none, some, List, [], ◌∷◌, ◌++◌, drop, Memᴰ, Text, text_eq, codes, Result,
  ok, err,
}
use compute_contract_referen.Json.{
  Json, field, null, boolean, number, string, array, object, no_items, item, no_members, member,
  is_text,
}
use compute_contract_referen.Directory.{
  DirectoryDeps, must, bad_prev, not_empty, invalid_signature, prev_of, type_of, plc_operation,
  plc_tombstone, compute_operation_cid, validate_operation_structure, validate_prev_chain,
}
use compute_contract_referen.Directory.Store.{PlcStore, get_audit_log, get_current_ops, current}
use compute_contract_referen.Directory.Create.{create_op, last, is_chained}
use compute_contract_referen.Directory.Admitted.{entry_of, stored}
use compute_contract_referen.Directory.Chain.{IsChain, BindsPrev}
use compute_contract_referen.Directory.Kept.{
  IsAuthorized, create_op-IsChain, create_op-IsAuthorized, unsigned_after_tombstone,
}

abbrev prev_bytes : Option Json → Option (List ℕ)
prev_bytes none = some (0 ∷ [])
prev_bytes (some null) = some (1 ∷ [])
prev_bytes (some (string cid)) = some (2 ∷ cid)
prev_bytes (some _) = none

-- The signature that a key makes is its own first letter.
abbrev by_letter : Json → List ℕ → List ℕ → Bool
by_letter (string (c ∷ _)) bytes (d ∷ _) = c == d
by_letter _ bytes _ = false

abbrev directory : DirectoryDeps
directory = record {
  cbor_encode = λ op. prev_bytes (prev_of op);
  sha256 = λ bytes. bytes;
  base32_encode = λ bytes. bytes;
  atob = some;
  verify_sig = some by_letter;
}

abbrev prev_from : Text → Option Json
prev_from cid = elim (drop 5 cid) [
  | [] ↦ none
  | zero ∷ _ ↦ none
  | suc zero ∷ _ ↦ some null
  | suc (suc _) ∷ cid' ↦ some (string cid')
]

abbrev key_list : Text → Json
key_list k = array (item (string k) no_items)

abbrev update : Text → Json → Text → Json
update key prev sig = object (
    member (codes "type") (string plc_operation) (
      member (codes "rotationKeys") (key_list key)
        (member (codes "prev") prev (member (codes "sig") (string sig) no_members))))

abbrev tombstone : Text → Text → Json
tombstone prev sig = object (
    member (codes "type") (string plc_tombstone)
      (member (codes "prev") (string prev) (member (codes "sig") (string sig) no_members)))

abbrev did_a : Text
did_a = codes "did:plc:a"

abbrev genesis : Json
genesis = update (codes "k") null (codes "kkkk")

abbrev cid_g : Text
cid_g = b'b' ∷ 0x01 ∷ 0x71 ∷ 0x12 ∷ 0x20 ∷ 1 ∷ []

abbrev after_genesis : PlcStore
after_genesis = (did_a, entry_of directory did_a genesis cid_g (codes "t0") ∷ []) ∷ []

first_stored :
    create_op directory did_a (some genesis) (codes "t0") []
    ≡ (ok (entry_of directory did_a genesis cid_g (codes "t0")), after_genesis)
unfolding create_op
first_stored = refl

no_second_genesis :
    create_op directory did_a (some genesis) (codes "t1") after_genesis
    ≡ (err (bad_prev not_empty), after_genesis)
unfolding create_op
no_second_genesis = refl

wrong_key :
    create_op directory did_a
      (some (update (codes "m") (string cid_g) (codes "mmmm")))
      (codes "t1")
      after_genesis
    ≡ (err invalid_signature, after_genesis)
unfolding create_op
wrong_key = refl

no_keys :
    validate_operation_structure (object (member (codes "type") (string plc_operation) no_members))
    ≡ some (must (codes "rotationKeys must be an array"))
unfolding validate_operation_structure
no_keys = refl

prev_kept :
    (v : Option Json) (bytes : List ℕ)
    → prev_bytes v ≡ some bytes
    → v ≡ prev_from (b'b' ∷ 0x01 ∷ 0x71 ∷ 0x12 ∷ 0x20 ∷ bytes)
prev_kept none bytes h = let e : bytes ≡ 0 ∷ [] = cc in rw e refl
prev_kept (some null) bytes h = let e : bytes ≡ 1 ∷ [] = cc in rw e refl
prev_kept (some (string cid)) bytes h = let e : bytes ≡ 2 ∷ cid = cc in rw e refl
prev_kept (some (boolean _)) bytes h = cc
prev_kept (some (number _)) bytes h = cc
prev_kept (some (array _)) bytes h = cc
prev_kept (some (object _)) bytes h = cc

cid_has_prev :
    (op : Json) (cid : Text)
    → compute_operation_cid directory op ≡ some cid
    → prev_of op ≡ prev_from cid
unfolding compute_operation_cid
cid_has_prev op cid h = elim (Option-cases (prev_bytes (prev_of op))) [
  | inl missed ↦ absurd (ground arith)
  | inr (bytes, e) ↦
      let whole : b'b' ∷ 0x01 ∷ 0x71 ∷ 0x12 ∷ 0x20 ∷ bytes ≡ cid = ground arith in
      rw (← whole) (prev_kept (prev_of op) bytes e)
]

directory-BindsPrev : BindsPrev directory
directory-BindsPrev a b cid h k = cid_has_prev a cid h ∙ sym (cid_has_prev b cid k)

genesis-IsChain : IsChain directory (entry_of directory did_a genesis cid_g (codes "t0") ∷ [])
unfolding current compute_operation_cid field compute_contract_referen.Base.includes
genesis-IsChain = record { links = (refl, tt); distinct = (refl, tt); identified = (refl, tt) }

nothing-IsChain : IsChain directory []
unfolding current
nothing-IsChain = record { links = tt; distinct = tt; identified = tt }

after_genesis-IsChain : (d : Text) → IsChain directory (get_audit_log d after_genesis)
unfolding get_audit_log
after_genesis-IsChain d = elim (Bool-cases (text_eq did_a d)) [
  | inl same ↦ rw same genesis-IsChain
  | inr other ↦ rw other nothing-IsChain
]

abbrev second : Json
second = update (codes "m") (string cid_g) (codes "kkkk")

abbrev cid_2 : Text
cid_2 = b'b' ∷ 0x01 ∷ 0x71 ∷ 0x12 ∷ 0x20 ∷ 2 ∷ cid_g

second_is_update : is_text plc_operation (type_of second) ≡ true
unfolding is_text field
second_is_update = refl

create_op-IsChain_example :
    IsChain directory
      (get_audit_log did_a (create_op directory did_a (some second) (codes "t1") after_genesis).1)
create_op-IsChain_example =
    create_op-IsChain directory directory-BindsPrev did_a second (codes "t1") after_genesis
      (inl second_is_update) after_genesis-IsChain did_a

abbrev after_second : PlcStore
after_second = stored directory did_a second cid_2 (codes "t1") after_genesis

second_stored :
    create_op directory did_a (some second) (codes "t1") after_genesis
    ≡ (ok (entry_of directory did_a second cid_2 (codes "t1")), after_second)
unfolding create_op
second_stored = refl

second-is_chained : is_chained second ≡ true
unfolding is_chained
second-is_chained = refl

create_op-IsAuthorized_example :
    IsAuthorized directory by_letter did_a after_genesis second
      (entry_of directory did_a second cid_2 (codes "t1"))
create_op-IsAuthorized_example =
    create_op-IsAuthorized directory by_letter did_a second (codes "t1") after_genesis after_second
      (entry_of directory did_a second cid_2 (codes "t1")) refl second-is_chained second_stored

-- A tombstone that is not signed.
abbrev after_tombstone : PlcStore
after_tombstone =
    (
      did_a,
      entry_of directory did_a genesis cid_g (codes "t0")
          ∷ entry_of directory did_a (tombstone cid_g (codes "k")) cid_2 (codes "t1")
          ∷ [],
    )
    ∷ []

abbrev forged : Json
forged = update (codes "z") (string cid_2) (codes "zzzz")

abbrev cid_3 : Text
cid_3 = b'b' ∷ 0x01 ∷ 0x71 ∷ 0x12 ∷ 0x20 ∷ 2 ∷ cid_2

tombstone_is_last :
    last (get_current_ops did_a after_tombstone)
    ≡ some (entry_of directory did_a (tombstone cid_g (codes "k")) cid_2 (codes "t1"))
unfolding get_current_ops text_eq
tombstone_is_last = refl

tombstone_no_update : is_text plc_operation (type_of (tombstone cid_g (codes "k"))) ≡ false
unfolding is_text field
tombstone_no_update = refl

forged_structure : validate_operation_structure forged ≡ none
unfolding validate_operation_structure
forged_structure = refl

forged_prev : validate_prev_chain (prev_of forged) (get_audit_log did_a after_tombstone) ≡ none
unfolding validate_prev_chain get_audit_log field
forged_prev = refl

forged_cid : compute_operation_cid directory forged ≡ some cid_3
unfolding compute_operation_cid field
forged_cid = refl

unsigned_after_tombstone_example :
    create_op directory did_a (some forged) (codes "t2") after_tombstone ≡ (
      ok (entry_of directory did_a forged cid_3 (codes "t2")),
      stored directory did_a forged cid_3 (codes "t2") after_tombstone,
    )
unsigned_after_tombstone_example =
    unsigned_after_tombstone directory did_a forged cid_3 (codes "t2") after_tombstone
      (entry_of directory did_a (tombstone cid_g (codes "k")) cid_2 (codes "t1")) tombstone_is_last
      tombstone_no_update forged_structure forged_prev forged_cid
