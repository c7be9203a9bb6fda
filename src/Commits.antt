-- ===== src/Commits.antt =====
-- The writes of a commit: `applyWrites` of src/typescript/lib/hono-factory-atproto-repo/repo/repo.ts up to the
-- root of the new tree. A record is its CBOR, and the CID of a block a parameter; no CID is empty, so that
-- `existing ?` asks whether there is one. The tree is given in memory; how mst.init loads it is left out.
pub mod Replayed
pub mod Slices
mod Tests
use compute_contract_referen.Base.{
  ℕ, Option, none, some, List, [], ◌∷◌, ◌++◌, Text, codes, Result, ok, err, ◌>>=◌,
}
use compute_contract_referen.Mst.{MstError}
use compute_contract_referen.Mst.Cached.{Mst, mst_get, mst_set, mst_delete}

pub data Action : Type 0 where
  create : Action
  update : Action
  delete : Action

-- `WriteOp`
pub record WriteOp : Type 0 where
  pub action : Action
  pub collection : Text
  pub rkey : Text
  pub record_bytes : Option (List ℕ)

-- `CommitOp`
pub record CommitOp : Type 0 where
  pub action : Action
  pub path : Text
  pub cid : Option Text

pub data WriteError : Type 0 where
  record_required : Action → WriteError
  record_not_found : Text → WriteError
  mst_error : MstError → WriteError

-- `${write.collection}/${write.rkey}`
abbrev pub write_key : WriteOp → Text
write_key write = write.collection ++ (b'/' ∷ write.rkey)

unfoldable pub lift_mst : Result MstError Mst → Result WriteError Mst
lift_mst (err e) = err (mst_error e)
lift_mst (ok s) = ok s

-- `existing ? "update" : "create"`
unfoldable pub action_for : Option Text → Action
action_for none = create
action_for (some _) = update

module _ (sha256 : Text → List ℕ) (cid_for_bytes : List ℕ → Text) where
  -- The cases "create" and "update"
  unfoldable pub put_record :
      Action → Text → Option (List ℕ) → Mst → Result WriteError (CommitOp × Mst)
  unfolding mst_get mst_set lift_mst action_for
  put_record action key none s = err (record_required action)
  put_record action key (some record_bytes) s =
      let cid = cid_for_bytes record_bytes in
      lift_mst (mst_set sha256 key cid s) >>= (λ changed.
        ok (record { action = action_for (mst_get key s); path = key; cid = some cid }, changed))

  -- The case "delete"
  unfoldable pub delete_record : Text → Option Text → Mst → Result WriteError (CommitOp × Mst)
  unfolding mst_delete
  delete_record key none s = err (record_not_found key)
  delete_record key (some _) s =
      ok (record { action = delete; path = key; cid = none }, mst_delete key s)

  -- One round of the loop over the writes.
  unfoldable pub apply_write :
      Action → Text → Option (List ℕ) → Mst → Result WriteError (CommitOp × Mst)
  unfolding put_record delete_record mst_get
  apply_write create key record_bytes s = put_record create key record_bytes s
  apply_write update key record_bytes s = put_record update key record_bytes s
  apply_write delete key _ s = delete_record key (mst_get key s) s

  -- The block that a round stores.
  unfoldable pub stored_block : Action → Option (List ℕ) → List (Text × List ℕ)
  stored_block delete _ = []
  stored_block _ none = []
  stored_block _ (some record_bytes) = (cid_for_bytes record_bytes, record_bytes) ∷ []

  -- The loop: the operations of the commit event with the new tree, or what was thrown, and the blocks
  -- that were stored by then.
  unfoldable pub apply_writes :
      List WriteOp → Mst → Result WriteError (List CommitOp × Mst) × List (Text × List ℕ)
  unfolding apply_write stored_block
  apply_writes [] s = (ok ([], s), [])
  apply_writes (write ∷ writes) s =
      let stored = stored_block write.action write.record_bytes in
      elim (apply_write write.action (write_key write) write.record_bytes s) [
        | err e ↦ (err e, stored)
        | ok (op, changed) ↦
            let (result, more) = apply_writes writes changed in
            (result >>= (λ (ops, last). ok (op ∷ ops, last)), stored ++ more)
      ]
