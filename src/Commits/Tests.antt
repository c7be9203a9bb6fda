-- ===== src/Commits/Tests.antt =====
-- Runs of the writes of a commit.
use compute_contract_referen.Base.{refl, ◌≡◌, ℕ, none, some, List, [], ◌∷◌, Text, codes, err}
use compute_contract_referen.Mst.Histories.{new_mst}
use compute_contract_referen.Commits.{
  create, update, delete, WriteOp, record_not_found, record_required, apply_writes,
}

abbrev hash : Text → List ℕ
hash key = 255 ∷ []

abbrev cid_of : List ℕ → Text
cid_of bytes = b'b' ∷ bytes

-- A record is created, and then written again as a creation, and deleted.
abbrev writes : List WriteOp
writes =
    record {
      action = create;
      collection = codes "com.example";
      rkey = codes "a";
      record_bytes = some (1 ∷ []);
    }
    ∷ record {
      action = create;
      collection = codes "com.example";
      rkey = codes "a";
      record_bytes = some (2 ∷ []);
    }
    ∷ record {
      action = delete;
      collection = codes "com.example";
      rkey = codes "a";
      record_bytes = none;
    }
    ∷ []

missing_deleted :
    apply_writes hash cid_of
      (record { action = delete; collection = codes "c"; rkey = codes "a"; record_bytes = none }
        ∷ [])
      new_mst
    ≡ (err (record_not_found (codes "c/a")), [])
unfolding apply_writes
missing_deleted = refl

record_missing :
    (apply_writes hash cid_of
      (record { action = update; collection = codes "c"; rkey = codes "a"; record_bytes = none }
        ∷ [])
      new_mst).0
    ≡ err (record_required update)
unfolding apply_writes
record_missing = refl
