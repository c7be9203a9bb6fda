-- ===== src/Directory.antt =====
-- The did:plc directory of src/typescript/lib/hono-factory-did-plc-directory: the checks of
-- validation.ts and the in-memory store of storage/plc-store.ts. dag-cbor, SHA-256, base32, atob and
-- the verifier of signatures are fields of `DirectoryDeps`; an operation is the JSON value that came.
pub mod Store
pub mod Create
pub mod Admitted
mod Logs
pub mod Kept
mod Tests
pub mod Links
pub mod Chain
use compute_contract_referen.Base.{
  ℕ, zero, suc, ◌+◌, ◌%◌, Bool, true, false, not, ◌&&◌, ◌||◌, Option, none, some, List, [], ◌∷◌,
  ◌++◌, map, ◌==◌, if◌then◌else◌, length, Text, text_eq, codes, includes, Dict, lookup, put, Result,
  ok, err, ◌>>=◌,
}
use compute_contract_referen.Json.{
  Json, array, elements, field, without, is_array, is_object, is_string, is_null, is_undefined,
  is_text, string,
}

pub record DirectoryDeps : Type 0 where
  -- `cborEncode`, with `none` where it throws
  pub cbor_encode : Json → Option (List ℕ)
  pub sha256 : List ℕ → List ℕ
  pub base32_encode : List ℕ → Text
  -- `atob`, with `none` where it throws
  pub atob : Text → Option (List ℕ)
  -- `deps.verifySig`, if it is given
  pub verify_sig : Option (Json → List ℕ → List ℕ → Bool)

pub record LogEntry : Type 0 where
  pub did : Text
  pub operation : Json
  pub cid : Text
  pub nullified : Bool
  pub created_at : Text

pub data StructureError : Type 0 where
  must : Text → StructureError
  unknown_type : Option Json → StructureError

pub data PrevError : Type 0 where
  not_empty : PrevError
  not_found : Option Json → PrevError

pub data Refusal : Type 0 where
  invalid_json : Refusal
  malformed : StructureError → Refusal
  bad_prev : PrevError → Refusal
  invalid_signature : Refusal
  no_cid : Refusal
  -- an exception that no handler catches
  uncaught : Refusal

-- `replace(/-/g, "+").replace(/_/g, "/")`
unfoldable pub from_url_alphabet : ℕ → ℕ
from_url_alphabet c = if c == b'-' then b'+' else if c == b'_' then b'/' else c

-- `while (b64.length % 4 !== 0) b64 += "="`: three rounds are enough.
unfoldable pub padded : ℕ → Text → Text
padded zero b64 = b64
padded (suc fuel) b64 =
    let more = padded fuel (b64 ++ b'=' ∷ []) in if length b64 % 4 == 0 then b64 else more

-- `computeOperationCid` of what `cborEncode` gives
unfoldable pub compute_operation_cid : DirectoryDeps → Json → Option Text
compute_operation_cid deps op = elim (deps.cbor_encode op) [
  | none ↦ none
  | some bytes ↦ some (b'b' ∷ deps.base32_encode (0x01 ∷ 0x71 ∷ 0x12 ∷ 0x20 ∷ deps.sha256 bytes))
]

abbrev pub plc_operation : Text
plc_operation = codes "plc_operation"

abbrev pub plc_tombstone : Text
plc_tombstone = codes "plc_tombstone"

-- The type and the prev of an operation.
abbrev pub type_of : Json → Option Json
type_of op = field (codes "type") op

abbrev pub prev_of : Json → Option Json
prev_of op = field (codes "prev") op

abbrev pub is_optional : (Option Json → Bool) → Option Json → Bool
is_optional test value = is_undefined value || test value

unfoldable pub plc_operation_error : Json → Option StructureError
unfolding field
plc_operation_error o =
    if not (is_array (field (codes "rotationKeys") o))
    then some (must (codes "rotationKeys must be an array"))
    else if not (is_optional is_object (field (codes "verificationMethods") o))
    then some (must (codes "verificationMethods must be an object"))
    else if not (is_optional is_array (field (codes "alsoKnownAs") o))
    then some (must (codes "alsoKnownAs must be an array"))
    else if not (is_optional is_object (field (codes "services") o))
    then some (must (codes "services must be an object"))
    else if not (is_string (field (codes "sig") o))
    then some (must (codes "sig must be a string"))
    else if not (is_null (prev_of o) || is_optional is_string (prev_of o))
    then some (must (codes "prev must be null or a CID string"))
    else none

unfoldable pub tombstone_error : Json → Option StructureError
unfolding field
tombstone_error o =
    if not (is_string (prev_of o))
    then some (must (codes "prev must be a CID string"))
    else if not (is_string (field (codes "sig") o))
    then some (must (codes "sig must be a string"))
    else none

-- The first of the fields that is no string.
unfoldable pub string_error : List Text → Json → Option StructureError
unfolding field
string_error [] o = none
string_error (key ∷ keys) o =
    let rest = string_error keys o in
    if is_string (field key o) then rest else some (must (key ++ codes " must be a string"))

abbrev pub legacy_fields : List Text
legacy_fields =
    codes "signingKey" ∷ codes "recoveryKey" ∷ codes "handle" ∷ codes "service" ∷ codes "sig" ∷ []

-- `validateOperationStructure`
unfoldable pub validate_operation_structure : Json → Option StructureError
unfolding plc_operation_error tombstone_error string_error is_text field
validate_operation_structure op =
    if not (is_object (some op)) || is_null (some op)
    then some (must (codes "Operation must be an object"))
    else if is_text plc_operation (type_of op)
    then plc_operation_error op
    else if is_text plc_tombstone (type_of op)
    then tombstone_error op
    else if is_text (codes "create") (type_of op)
    then string_error legacy_fields op
    else some (unknown_type (type_of op))

-- `existingOps.find((e) => e.cid === prev && !e.nullified)`
unfoldable pub find_op : Option Json → List LogEntry → Option LogEntry
unfolding is_text
find_op prev [] = none
find_op prev (e ∷ ops) = if is_text e.cid prev && not e.nullified then some e else find_op prev ops

-- `validatePrevChain`
unfoldable pub validate_prev_chain : Option Json → List LogEntry → Option PrevError
unfolding find_op
validate_prev_chain prev existing =
    if is_null prev
    then elim existing [ [] ↦ none | _ ∷ _ ↦ some not_empty ]
    else elim (find_op prev existing) [ none ↦ some (not_found prev) | some _ ↦ none ]
