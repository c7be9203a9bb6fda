-- ===== src/Directory/Logs.antt =====
-- What the store's operations do to the log of each DID.
use compute_contract_referen.Base.{
  arith, ◌≡◌, inl, inr, Option-cases, List, [], ◌∷◌, ◌++◌, Text, text_eq, text_eq_iff, lookup,
  lookup-put, if◌then◌else◌,
}
use compute_contract_referen.Directory.{LogEntry}
use compute_contract_referen.Directory.Store.{
  PlcStore, get_audit_log, nullify, insert_op, nullify_ops,
}

pub audit_log-insert_op :
    (did : Text) (e : LogEntry) (logs : PlcStore)
    → get_audit_log did (insert_op e logs)
      ≡ (if text_eq e.did did then get_audit_log e.did logs ++ e ∷ [] else get_audit_log did logs)
unfolding get_audit_log insert_op
audit_log-insert_op did e logs =
    ground (arith, lookup-put e.did did (get_audit_log e.did logs ++ e ∷ []) logs)

pub audit_log-nullify_ops :
    (did other : Text) (cids : List Text) (logs : PlcStore)
    → get_audit_log did (nullify_ops other cids logs) ≡ (
        if text_eq other did
        then nullify cids (get_audit_log other logs)
        else get_audit_log did logs)
unfolding get_audit_log nullify_ops
audit_log-nullify_ops did other cids logs = elim (Option-cases (lookup other logs)) [
  | inl missed ↦ ground (arith, text_eq_iff other did)
  | inr (ops, found) ↦ ground (arith, lookup-put other did (nullify cids ops) logs)
]
