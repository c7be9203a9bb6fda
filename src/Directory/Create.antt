-- ===== src/Directory/Create.antt =====
-- `handleCreateOp` of src/typescript/lib/hono-factory-did-plc-directory/handlers.ts, and
-- `verifyOperationSignature` of validation.ts. A request is handled in one step: no other request for
-- the DID runs while this one waits for the store or the verifier.
use compute_contract_referen.Base.{
  ℕ, ◌+◌, Bool, true, false, ◌&&◌, ◌||◌, not, Option, none, some, List, [], ◌∷◌, map, if◌then◌else◌,
  length, drop, ltb, Text, codes, Result, ok, err, ◌>>=◌,
}
use compute_contract_referen.Json.{Json, array, elements, field, without, is_null, is_text, string}
use compute_contract_referen.Directory.{
  DirectoryDeps, LogEntry, Refusal, invalid_json, malformed, bad_prev, invalid_signature, no_cid,
  uncaught, from_url_alphabet, padded, compute_operation_cid, plc_operation, plc_tombstone, type_of,
  prev_of, validate_operation_structure, validate_prev_chain,
}
use compute_contract_referen.Directory.Store.{
  PlcStore, get_audit_log, get_current_ops, insert_op, nullify_ops,
}

-- `fromBase64url(op.sig)`, with `none` where it throws
unfoldable pub from_base64url : DirectoryDeps → Option Json → Option (List ℕ)
unfolding from_url_alphabet padded
from_base64url deps (some (string b64url)) = deps.atob (padded 3 (map from_url_alphabet b64url))
from_base64url deps _ = none

-- `verifyOperationSignature`, with `uncaught` where it throws
unfoldable pub verify_operation_signature :
    DirectoryDeps → (Json → List ℕ → List ℕ → Bool) → Json → Json → Result Refusal Bool
unfolding from_base64url without field
verify_operation_signature deps verify op signer_did =
    elim (deps.cbor_encode (without (codes "sig") op)) [
      | none ↦ err uncaught
      | some unsigned_bytes ↦ elim (from_base64url deps (field (codes "sig") op)) [
        | none ↦ err uncaught
        | some sig_bytes ↦ ok (verify signer_did unsigned_bytes sig_bytes)
      ]
    ]

-- The loop over the rotation keys.
unfoldable pub try_keys :
    DirectoryDeps → (Json → List ℕ → List ℕ → Bool) → Json → List Json → Result Refusal (Unit {0})
unfolding verify_operation_signature
try_keys deps verify op [] = err invalid_signature
try_keys deps verify op (key ∷ keys) =
    let rest = try_keys deps verify op keys in
    elim (verify_operation_signature deps verify op key) [
      | err e ↦ err e
      | ok true ↦ ok tt
      | ok false ↦ rest
    ]

-- The rotation keys of an operation: what no array is cannot be looped over.
unfoldable pub rotation_keys : Json → Result Refusal (List Json)
unfolding field
rotation_keys op = elim (field (codes "rotationKeys") op) [
  | some (array items) ↦ ok (elements items)
  | _ ↦ err uncaught
]

-- `ops[ops.length - 1]`
abbrev pub last : List LogEntry → Option LogEntry
last [] = none
last (e ∷ []) = some e
last (e ∷ f ∷ ops) = last (f ∷ ops)

-- The signature of an operation against the keys of the last one of the chain.
unfoldable pub check_signature : DirectoryDeps → Json → List LogEntry → Result Refusal (Unit {0})
unfolding rotation_keys try_keys is_text field
check_signature deps op current_ops = elim deps.verify_sig [
  | none ↦ ok tt
  | some verify ↦ if is_null (prev_of op) then ok tt else elim (last current_ops) [
    | none ↦ ok tt
    | some prev_op ↦
        if is_text plc_operation (type_of prev_op.operation)
        then rotation_keys prev_op.operation >>= (λ keys. try_keys deps verify op keys)
        else ok tt
  ]
]

abbrev pub raised {ℓ} : {E : Type ℓ} → (E → Refusal) → Option E → Result Refusal (Unit {0})
raised refuse none = ok tt
raised refuse (some e) = err (refuse e)

abbrev pub parsed : Option Json → Result Refusal Json
parsed none = err invalid_json
parsed (some body) = ok body

abbrev pub computed : Option Text → Result Refusal Text
computed none = err no_cid
computed (some cid) = ok cid

-- Whether the operation is one of those whose prev and signature are looked at.
unfoldable pub is_chained : Json → Bool
unfolding is_text field
is_chained op = is_text plc_operation (type_of op) || is_text plc_tombstone (type_of op)

-- The checks that stand before any change of the store, and the CID.
unfoldable pub admit : DirectoryDeps → Text → Option Json → PlcStore → Result Refusal (Json × Text)
unfolding validate_operation_structure validate_prev_chain check_signature is_chained
    compute_operation_cid get_audit_log get_current_ops
admit deps did body logs = do
  op ← parsed body
  _ ← raised malformed (validate_operation_structure op)
  _ ←
      if is_chained op
      then raised bad_prev (validate_prev_chain (prev_of op) (get_audit_log did logs))
        >>= (λ _. check_signature deps op (get_current_ops did logs))
      else ok tt
  cid ← computed (compute_operation_cid deps op)
  ok (op, cid)

-- `currentOps.findIndex((e) => e.cid === op.prev)`, with `none` for -1
unfoldable pub find_index : Option Json → List LogEntry → Option ℕ
unfolding is_text
find_index prev [] = none
find_index prev (e ∷ ops) =
    let rest = find_index prev ops in
    if is_text e.cid prev then some 0 else elim rest [ none ↦ none | some i ↦ some (i + 1) ]

abbrev pub cids_of : List LogEntry → List Text
cids_of [] = []
cids_of (e ∷ ops) = e.cid ∷ cids_of ops

-- What a recovery nullifies: the operations after its prev.
unfoldable pub overridden : Json → List LogEntry → List Text
unfolding find_index is_text field
overridden op current_ops =
    if is_text plc_operation (type_of op) && not (is_null (prev_of op))
    then elim (find_index (prev_of op) current_ops) [
      | none ↦ []
      | some i ↦ if ltb (i + 1) (length current_ops) then cids_of (drop (i + 1) current_ops) else []
    ]
    else []

-- `handleCreateOp`
unfoldable pub create_op :
    DirectoryDeps → Text → Option Json → Text → PlcStore → Result Refusal LogEntry × PlcStore
unfolding admit overridden nullify_ops insert_op get_current_ops
create_op deps did body now logs = elim (admit deps did body logs) [
  | err refusal ↦ (err refusal, logs)
  | ok (op, cid) ↦
      let entry : LogEntry = record {
        did = did;
        operation = op;
        cid = cid;
        nullified = false;
        created_at = now;
      } in
      let kept = nullify_ops did (overridden op (get_current_ops did logs)) logs in
      (ok entry, insert_op entry kept)
]
