-- ===== src/Commits/Replayed.antt =====
-- The operations of a commit event describe the change of the tree.
use compute_contract_referen.Base.{
  ◌≡◌, Option, none, some, List, [], ◌∷◌, Text, Dict, lookup, put, delete, Result, ok, err,
}
use compute_contract_referen.Mst.Cached.{Mst, mst_get}
use compute_contract_referen.Mst.Refined.{IsCached}
use compute_contract_referen.Commits.{
  Action, create, update, CommitOp, WriteError, record_required, record_not_found, mst_error,
}

-- What an operation of the event does to a map of paths to CIDs.
abbrev pub apply_op : CommitOp → Dict Text → Dict Text
apply_op op d = elim op.cid [ none ↦ delete op.path d | some cid ↦ put op.path cid d ]

abbrev pub apply_ops : List CommitOp → Dict Text → Dict Text
apply_ops [] d = d
apply_ops (op ∷ ops) d = apply_ops ops (apply_op op d)

-- The action that an operation names fits the map that it is applied to.
abbrev pub Fits : Action → Option Text → Option Text → Type 0
Fits create cid before = (before ≡ none) × ((c : Text) × (cid ≡ some c))
Fits update cid before = ((b : Text) × (before ≡ some b)) × ((c : Text) × (cid ≡ some c))
Fits compute_contract_referen.Commits.delete cid before =
    ((b : Text) × (before ≡ some b)) × (cid ≡ none)

abbrev pub AllFit : List CommitOp → Dict Text → Type 0
AllFit [] d = Unit {0}
AllFit (op ∷ ops) d = Fits op.action op.cid (lookup op.path d) × AllFit ops (apply_op op d)

-- A write was refused: it has no record, or there is none to delete.
abbrev pub IsRefusal : WriteError → Type 0
IsRefusal (record_required _) = Unit {0}
IsRefusal (record_not_found _) = Unit {0}
IsRefusal (mst_error _) = ⊥

-- A tree has what a map has.
record Matches (s : Mst) (d : Dict Text) : Type 0 where
  cached : IsCached s
  same : (j : Text) → lookup j s.all ≡ lookup j d

-- What a round comes to.
abbrev IsRound : Dict Text → Result WriteError (CommitOp × Mst) → Type 0
IsRound d (err e) = IsRefusal e
IsRound d (ok (op, s)) = Fits op.action op.cid (lookup op.path d) × Matches s (apply_op op d)

-- What all rounds come to: a refusal, or operations that fit the map one after the other and lead to
-- one that the new tree agrees with.
abbrev pub IsReplayed : Dict Text → Result WriteError (List CommitOp × Mst) → Type 0
IsReplayed d (err e) = IsRefusal e
IsReplayed d (ok (ops, s)) =
    AllFit ops d × IsCached s × ((j : Text) → mst_get j s ≡ lookup j (apply_ops ops d))
