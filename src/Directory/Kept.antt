-- ===== src/Directory/Kept.antt =====
-- What `handleCreateOp` keeps of the logs, whom it lets extend them, and where it does not ask.
use compute_contract_referen.Base.{
  arith, refl, subst, ◌≡◌, ◌⊎◌, inl, inr, ℕ, Bool, true, false, Bool-cases, none, some, List, [],
  ◌∷◌, ◌++◌, Memᴰ, Text, text_eq, text_eq_iff, text_eq_refl, ok,
}
use compute_contract_referen.Json.{Json, null, string, is_null, is_text}
use compute_contract_referen.Directory.{
  DirectoryDeps, LogEntry, prev_of, type_of, plc_operation, compute_operation_cid,
  validate_prev_chain, validate_operation_structure,
}
use compute_contract_referen.Directory.Store.{
  PlcStore, current, nullify, get_audit_log, get_current_ops, nullify_ops,
}
use compute_contract_referen.Directory.Create.{
  last, overridden, create_op, is_chained, rotation_keys, verify_operation_signature,
}
use compute_contract_referen.Directory.Admitted.{
  IsAdmitted, entry_of, stored, create_op_cases, create_op_passed, signature_checked,
  signature_unasked,
}
use compute_contract_referen.Directory.Logs.{audit_log-insert_op, audit_log-nullify_ops}
use compute_contract_referen.Directory.Links.{nullify_none, prev_checked}
use compute_contract_referen.Directory.Chain.{
  IsChain, BindsPrev, Identified, updated-IsChain, appended-IsChain, overridden_other,
}

module _ (deps : DirectoryDeps) where
  -- The log that a request changes, and those that it does not.
  stored_log :
      (did : Text) (op : Json) (cid now : Text) (logs : PlcStore)
      → get_audit_log did (stored deps did op cid now logs)
        ≡ nullify (overridden op (get_current_ops did logs)) (get_audit_log did logs)
          ++ entry_of deps did op cid now ∷ []
  stored_log did op cid now logs =
      let cids = overridden op (get_current_ops did logs) in
      let e = entry_of deps did op cid now in
      let put_there = audit_log-insert_op did e (nullify_ops did cids logs) in
      let voided = audit_log-nullify_ops did did cids logs in
      let same = text_eq_refl did in ground arith

  other_log :
      (did other : Text) (op : Json) (cid now : Text) (logs : PlcStore)
      → text_eq did other ≡ false
      → get_audit_log other (stored deps did op cid now logs) ≡ get_audit_log other logs
  other_log did other op cid now logs apart =
      let cids = overridden op (get_current_ops did logs) in
      let e = entry_of deps did op cid now in
      let put_there = audit_log-insert_op other e (nullify_ops did cids logs) in
      let voided = audit_log-nullify_ops other did cids logs in ground arith

  -- The operation is an update, or it names the last operation that counts.
  abbrev pub Extends : Text → PlcStore → Json → Type 0
  Extends did logs op =
      (is_text plc_operation (type_of op) ≡ true)
      ⊎ ((p : LogEntry) × (last (get_current_ops did logs) ≡ some p)
          × (prev_of op ≡ some (string p.cid)))

  stored-IsChain :
      (did : Text) (op : Json) (cid now : Text) (logs : PlcStore)
      → BindsPrev deps
      → Extends did logs op
      → IsAdmitted deps did logs op cid
      → IsChain deps (get_audit_log did logs)
      → IsChain deps (get_audit_log did (stored deps did op cid now logs))
  unfolding get_current_ops is_chained
  stored-IsChain did op cid now logs binds extends admitted chain =
      let ops = get_audit_log did logs in
      let e = entry_of deps did op cid now in
      rw (stored_log did op cid now logs) (elim (Bool-cases (is_text plc_operation (type_of op))) [
        | inl update ↦
            updated-IsChain deps binds ops e chain refl admitted.computed update
              (admitted.chained (rw update refl))
        | inr other ↦ elim extends [
          | inl update ↦ absurd (ground arith)
          | inr (p, standing, named) ↦
              rw (overridden_other op (current ops) other, nullify_none ops)
                (appended-IsChain deps binds ops e p chain refl admitted.computed standing named)
        ]
      ])

  -- The logs of all DIDs stay chains, whatever the request: if CIDs bind prev, and what is posted is
  -- an update, or names the last operation that counts, then after the request the operations that
  -- count of each DID form a chain from a genesis operation without repetition, if they did before.
  pub create_op-IsChain :
      BindsPrev deps
      → (did : Text) (op : Json) (now : Text) (logs : PlcStore) → Extends did logs op
      → ((d : Text) → IsChain deps (get_audit_log d logs))
      → (d : Text) → IsChain deps (get_audit_log d (create_op deps did (some op) now logs).1)
  create_op-IsChain binds did op now logs extends chains d =
      elim (create_op_cases deps did op now logs) [
        | inl (refusal, e) ↦ rw e (chains d)
        | inr (cid, admitted, e) ↦ rw e (elim (Bool-cases (text_eq did d)) [
          | inl same ↦
              let here : did ≡ d = (text_eq_iff did d).0 same in
              subst (λ k. IsChain deps (get_audit_log k (stored deps did op cid now logs))) here
                (stored-IsChain did op cid now logs binds extends admitted (chains did))
          | inr apart ↦ rw (other_log did d op cid now logs apart) (chains d)
        ])
      ]

  -- What stands behind an entry that is stored for an update or a tombstone.
  pub record IsAuthorized (verify : Json → List ℕ → List ℕ → Bool) (did : Text) (logs : PlcStore)
      (op : Json) (entry : LogEntry) : Type 0 where
    pub same : entry.operation ≡ op
    pub structured : validate_operation_structure op ≡ none
    pub identified : Identified deps entry
    -- it is the first operation, or its prev is an operation that counts
    pub follows :
        ((prev_of op ≡ some null) × (get_audit_log did logs ≡ []))
        ⊎ ((p : LogEntry) × Memᴰ p (get_current_ops did logs) × (prev_of op ≡ some (string p.cid)))
    -- where it is not the first, and the last operation that counts is an update, one of the
    -- rotation keys of that update has signed it
    pub signed :
        (q : LogEntry)
        → is_null (prev_of op) ≡ false
        → last (get_current_ops did logs) ≡ some q
        → is_text plc_operation (type_of q.operation) ≡ true
        → (keys : List Json) × (key : Json) × (rotation_keys q.operation ≡ ok keys)
          × Memᴰ key keys
          × (verify_operation_signature deps verify op key ≡ ok true)

  -- With a verifier given, an update or tombstone is stored only if it is well formed, under the CID
  -- that is computed of it; it is the first of its DID, or its prev is the CID of an operation that
  -- counts; and unless it is the first, or the last operation that counts is no update, one of that
  -- update's rotation keys has signed it.
  pub create_op-IsAuthorized :
      (verify : Json → List ℕ → List ℕ → Bool) (did : Text) (op : Json) (now : Text)
      (logs logs' : PlcStore) (entry : LogEntry)
      → deps.verify_sig ≡ some verify
      → is_chained op ≡ true
      → create_op deps did (some op) now logs ≡ (ok entry, logs')
      → IsAuthorized verify did logs op entry
  create_op-IsAuthorized verify did op now logs logs' entry given chained h =
      elim (create_op_cases deps did op now logs) [
        | inl (refusal, e) ↦ absurd (ground arith)
        | inr (cid, admitted, e) ↦
            let made : entry_of deps did op cid now ≡ entry = ground arith in
            rw (← made) (record {
              same = refl;
              structured = admitted.structured;
              identified = admitted.computed;
              follows =
                  unfold get_current_ops in
                  prev_checked (prev_of op) (get_audit_log did logs) (admitted.chained chained);
              signed = λ q update standing keyed.
                  signature_checked deps verify op (get_current_ops did logs) q given update
                    standing keyed (admitted.signed chained);
            })
      ]

  -- After a tombstone no signature is asked for: where the last operation that counts is no update, a
  -- well-formed update or tombstone whose prev is an operation that counts is stored, whatever
  -- the verifier says of it.
  pub unsigned_after_tombstone :
      (did : Text) (op : Json) (cid now : Text) (logs : PlcStore) (t : LogEntry)
      → last (get_current_ops did logs) ≡ some t
      → is_text plc_operation (type_of t.operation) ≡ false
      → validate_operation_structure op ≡ none
      → validate_prev_chain (prev_of op) (get_audit_log did logs) ≡ none
      → compute_operation_cid deps op ≡ some cid
      → create_op deps did (some op) now logs
        ≡ (ok (entry_of deps did op cid now), stored deps did op cid now logs)
  unsigned_after_tombstone did op cid now logs t standing ended structured linked computed =
      create_op_passed deps did op cid now logs structured linked
        (signature_unasked deps op (get_current_ops did logs) t standing ended) computed
