-- ===== src/Directory/Store.antt =====
-- `MemoryPlcStore` of src/typescript/lib/hono-factory-did-plc-directory/storage/plc-store.ts: a log for
-- each DID. An entry is mutated in no other way than by `nullifyOps`.
use compute_contract_referen.Base.{
  true, Option, none, some, List, [], ◌∷◌, ◌++◌, if◌then◌else◌, Text, text_eq, includes, Dict,
  lookup, put,
}
use compute_contract_referen.Directory.{LogEntry}

abbrev pub PlcStore : Type 0
PlcStore = Dict (List LogEntry)

abbrev pub or_no_entries : Option (List LogEntry) → List LogEntry
or_no_entries none = []
or_no_entries (some ops) = ops

-- `getAuditLog`
unfoldable pub get_audit_log : Text → PlcStore → List LogEntry
unfolding lookup
get_audit_log did logs = or_no_entries (lookup did logs)

-- `ops.filter((e) => !e.nullified)`
unfoldable pub current : List LogEntry → List LogEntry
current [] = []
current (e ∷ ops) = let rest = current ops in if e.nullified then rest else e ∷ rest

-- `getCurrentOps`
unfoldable pub get_current_ops : Text → PlcStore → List LogEntry
unfolding get_audit_log current
get_current_ops did logs = current (get_audit_log did logs)

-- `getOpByCid`
unfoldable pub get_op_by_cid : Text → List LogEntry → Option LogEntry
unfolding text_eq
get_op_by_cid cid [] = none
get_op_by_cid cid (e ∷ ops) = if text_eq e.cid cid then some e else get_op_by_cid cid ops

-- `insertOp`
unfoldable pub insert_op : LogEntry → PlcStore → PlcStore
unfolding get_audit_log put
insert_op entry logs = put entry.did (get_audit_log entry.did logs ++ entry ∷ []) logs

unfoldable pub nullify : List Text → List LogEntry → List LogEntry
unfolding includes
nullify cids [] = []
nullify cids (e ∷ ops) =
    (if includes cids e.cid then record e { nullified = true } else e) ∷ nullify cids ops

-- `nullifyOps`
unfoldable pub nullify_ops : Text → List Text → PlcStore → PlcStore
unfolding nullify lookup put
nullify_ops did cids logs = elim (lookup did logs) [
  | none ↦ logs
  | some ops ↦ put did (nullify cids ops) logs
]
