-- ===== src/Directory/Admitted.antt =====
-- An operation that `handleCreateOp` stores: the checks that it has passed, and the entry that stands
-- for it.
use compute_contract_referen.Base.{
  arith, refl, ap, sym, ◌≡◌, ◌∙◌, ◌⊎◌, inl, inr, ℕ, Bool, true, false, Bool-cases, Option-cases,
  none, some, List, [], ◌∷◌, Memᴰ, Text, ok, err, Result-cases,
}
use compute_contract_referen.Json.{Json, is_null, is_text}
use compute_contract_referen.Directory.{
  DirectoryDeps, LogEntry, Refusal, prev_of, type_of, plc_operation, compute_operation_cid,
  validate_prev_chain, validate_operation_structure,
}
use compute_contract_referen.Directory.Store.{
  PlcStore, get_audit_log, get_current_ops, insert_op, nullify_ops,
}
use compute_contract_referen.Directory.Create.{
  last, overridden, create_op, admit, is_chained, check_signature, rotation_keys, try_keys,
  verify_operation_signature,
}

module _ (deps : DirectoryDeps) where
  pub record IsAdmitted (did : Text) (logs : PlcStore) (op : Json) (cid : Text) : Type 0 where
    pub structured : validate_operation_structure op ≡ none
    pub chained :
        is_chained op ≡ true → validate_prev_chain (prev_of op) (get_audit_log did logs) ≡ none
    pub signed : is_chained op ≡ true → check_signature deps op (get_current_ops did logs) ≡ ok tt
    pub computed : compute_operation_cid deps op ≡ some cid

  checks_passed :
      (did : Text) (logs : PlcStore) (op op' : Json) (cid : Text)
      → validate_operation_structure op ≡ none
      → admit deps did (some op) logs ≡ ok (op', cid)
      → (op ≡ op') × IsAdmitted did logs op cid
  unfolding admit
  checks_passed did logs op op' cid structured h = elim (Bool-cases (is_chained op)) [
    | inl chained ↦
        elim (Option-cases (validate_prev_chain (prev_of op) (get_audit_log did logs))) [
          | inl linked ↦ elim (Result-cases (check_signature deps op (get_current_ops did logs))) [
            | inl (e, refused) ↦ absurd (ground arith)
            | inr (done, signed) ↦ elim (Option-cases (compute_operation_cid deps op)) [
              | inl missed ↦ absurd (ground arith)
              | inr (c, computed) ↦
                  let same : c ≡ cid = ground arith in
                  (
                    ground arith,
                    record {
                      structured = structured;
                      chained = λ _. linked;
                      signed = λ _. signed;
                      computed = computed ∙ ap some same;
                    },
                  )
            ]
          ]
          | inr (e, refused) ↦ absurd (ground arith)
        ]
    | inr free ↦ elim (Option-cases (compute_operation_cid deps op)) [
      | inl missed ↦ absurd (ground arith)
      | inr (c, computed) ↦
          let same : c ≡ cid = ground arith in
          (
            ground arith,
            record {
              structured = structured;
              chained = λ chained. absurd (ground arith);
              signed = λ chained. absurd (ground arith);
              computed = computed ∙ ap some same;
            },
          )
    ]
  ]

  admit_ok :
      (did : Text) (op : Json) (logs : PlcStore) (op' : Json) (cid : Text)
      → admit deps did (some op) logs ≡ ok (op', cid)
      → (op ≡ op') × IsAdmitted did logs op cid
  unfolding admit
  admit_ok did op logs op' cid h = elim (Option-cases (validate_operation_structure op)) [
    | inl structured ↦ checks_passed did logs op op' cid structured h
    | inr (e, refused) ↦ absurd (ground arith)
  ]

  abbrev pub entry_of : Text → Json → Text → Text → LogEntry
  entry_of did op cid now = record {
    did = did;
    operation = op;
    cid = cid;
    nullified = false;
    created_at = now;
  }

  -- The store after an operation is admitted.
  abbrev pub stored : Text → Json → Text → Text → PlcStore → PlcStore
  stored did op cid now logs =
      insert_op (entry_of did op cid now)
        (nullify_ops did (overridden op (get_current_ops did logs)) logs)

  created :
      (did : Text) (op : Json) (now : Text) (logs : PlcStore) (op' : Json) (cid : Text)
      → admit deps did (some op) logs ≡ ok (op', cid)
      → create_op deps did (some op) now logs
        ≡ (ok (entry_of did op' cid now), stored did op' cid now logs)
  unfolding create_op
  created did op now logs op' cid e = rw (e, create_op) refl

  -- Either a refusal that changes nothing, or an admitted operation that is stored.
  pub create_op_cases :
      (did : Text) (op : Json) (now : Text) (logs : PlcStore)
      → ((refusal : Refusal) × (create_op deps did (some op) now logs ≡ (err refusal, logs)))
        ⊎ ((cid : Text) × IsAdmitted did logs op cid
            × (create_op deps did (some op) now logs
                ≡ (ok (entry_of did op cid now), stored did op cid now logs)))
  unfolding create_op
  create_op_cases did op now logs = elim (Result-cases (admit deps did (some op) logs)) [
    | inl (refusal, e) ↦ inl (refusal, rw (e, create_op) refl)
    | inr ((op', cid), e) ↦
        let (same, admitted) = admit_ok did op logs op' cid e in
        inr (cid, admitted, created did op now logs op cid (e ∙ ap (λ o. ok (o, cid)) (sym same)))
  ]

  admit_passed :
      (did : Text) (op : Json) (cid : Text) (logs : PlcStore)
      → validate_operation_structure op ≡ none
      → validate_prev_chain (prev_of op) (get_audit_log did logs) ≡ none
      → check_signature deps op (get_current_ops did logs) ≡ ok tt
      → compute_operation_cid deps op ≡ some cid
      → admit deps did (some op) logs ≡ ok (op, cid)
  unfolding admit
  admit_passed did op cid logs structured linked signed computed =
      elim (Bool-cases (is_chained op)) [
        | inl chained ↦ rw (structured, chained, linked, signed, computed) refl
        | inr free ↦ rw (structured, free, computed) refl
      ]

  -- An operation that passes every check is stored.
  pub create_op_passed :
      (did : Text) (op : Json) (cid now : Text) (logs : PlcStore)
      → validate_operation_structure op ≡ none
      → validate_prev_chain (prev_of op) (get_audit_log did logs) ≡ none
      → check_signature deps op (get_current_ops did logs) ≡ ok tt
      → compute_operation_cid deps op ≡ some cid
      → create_op deps did (some op) now logs
        ≡ (ok (entry_of did op cid now), stored did op cid now logs)
  create_op_passed did op cid now logs structured linked signed computed =
      created did op now logs op cid
        (admit_passed did op cid logs structured linked signed computed)

  some_key_signed :
      (verify : Json → List ℕ → List ℕ → Bool) (op : Json) (keys : List Json)
      → try_keys deps verify op keys ≡ ok tt
      → (key : Json) × Memᴰ key keys × (verify_operation_signature deps verify op key ≡ ok true)
  unfolding try_keys
  some_key_signed verify op [] h = absurd (ground arith)
  some_key_signed verify op (key ∷ keys) h =
      elim (Result-cases (verify_operation_signature deps verify op key)) [
        | inl (e, threw) ↦ absurd (ground arith)
        | inr (true, signed) ↦ (key, Memᴰ.head refl, signed)
        | inr (false, other) ↦
            let (k, m, signed) = some_key_signed verify op keys (ground arith) in
            (k, Memᴰ.tail m, signed)
      ]

  pub signature_checked :
      (verify : Json → List ℕ → List ℕ → Bool) (op : Json) (ops : List LogEntry)
      (prev_op : LogEntry)
      → deps.verify_sig ≡ some verify
      → is_null (prev_of op) ≡ false
      → last ops ≡ some prev_op
      → is_text plc_operation (type_of prev_op.operation) ≡ true
      → check_signature deps op ops ≡ ok tt
      → (keys : List Json) × (key : Json) × (rotation_keys prev_op.operation ≡ ok keys)
        × Memᴰ key keys
        × (verify_operation_signature deps verify op key ≡ ok true)
  unfolding check_signature
  signature_checked verify op ops prev_op given update standing keyed h =
      elim (Result-cases (rotation_keys prev_op.operation)) [
        | inl (e, threw) ↦ absurd (ground arith)
        | inr (keys, read) ↦
            let (key, m, signed) = some_key_signed verify op keys (ground arith) in
            (keys, key, read, m, signed)
      ]

  -- Where the last operation that counts is no update, no signature is looked at.
  pub signature_unasked :
      (op : Json) (ops : List LogEntry) (t : LogEntry)
      → last ops ≡ some t
      → is_text plc_operation (type_of t.operation) ≡ false
      → check_signature deps op ops ≡ ok tt
  unfolding check_signature
  signature_unasked op ops t standing ended = ground arith
