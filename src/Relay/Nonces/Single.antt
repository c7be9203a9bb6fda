-- ===== src/Relay/Nonces/Single.antt =====
-- How often `consume` and the verification that calls it accept one nonce.
use compute_contract_referen.Base.{
  arith, refl, sym, subst, ◌≡◌, ◌≢◌, ◌∙◌, inl, inr, ℕ, ◌+◌, Bool, true, false, Option-cases, none,
  List, [], ◌∷◌, All, ltb, Text, text_eq, text_eq_iff, text_eq_refl, Dict, lookup, lookup-put,
  lookup-delete, ok,
}
use compute_contract_referen.Relay.Nonces.{
  Issued, Signature, RegistrationPayload, unexpired, issue, given_signatures, check_entry, verify,
}
use compute_contract_referen.Relay.Nonces.Accepted.{
  IsAccepted, any_verifies_complete, verify-IsAccepted,
}

module _ (verify_signature : Text → Text → Text → Bool) where
  -- What happens to the store: a nonce is issued, or a registration is checked.
  pub data Event : Type 0 where
    issuing : ℕ → ℕ → Text → Text → Event
    verifying : ℕ → RegistrationPayload → Event

  unfoldable pub apply_events : List Event → Dict Issued → Dict Issued
  apply_events [] issued = issued
  apply_events (issuing ttl now nonce key ∷ events) issued =
      apply_events events (issue ttl now nonce key issued)
  apply_events (verifying now reg ∷ events) issued =
      apply_events events (verify verify_signature now reg issued).1

  abbrev pub IssuesOther : Text → Event → Type 0
  IssuesOther nonce (issuing ttl now other key) = other ≢ nonce
  IssuesOther nonce (verifying now reg) = Unit

  absent_unexpired :
      (nonce : Text) (now : ℕ) (issued : Dict Issued)
      → lookup nonce issued ≡ none
      → lookup nonce (unexpired now issued) ≡ none
  unfolding unexpired lookup
  absent_unexpired nonce now [] h = refl
  absent_unexpired nonce now ((n, v) ∷ issued) h = ground (arith, absent_unexpired nonce now issued)

  absent_issue :
      (nonce : Text) (ttl now : ℕ) (other key : Text) (issued : Dict Issued)
      → other ≢ nonce
      → lookup nonce issued ≡ none
      → lookup nonce (issue ttl now other key issued) ≡ none
  unfolding issue
  absent_issue nonce ttl now other key issued differs h =
      let gone = absent_unexpired nonce now issued h in
      let looks =
        lookup-put other nonce (record { key = key; expires_at = now + ttl })
          (unexpired now issued) in
      ground (arith, text_eq_iff other nonce)

  absent_check :
      (nonce : Text) (now : ℕ) (reg : RegistrationPayload) (signatures : List Signature)
      (entry : Issued) (issued : Dict Issued)
      → lookup nonce issued ≡ none
      → lookup nonce (check_entry verify_signature now reg signatures entry issued).1 ≡ none
  unfolding check_entry
  absent_check nonce now reg signatures entry issued h =
      ground (arith, lookup-delete reg.nonce nonce issued)

  absent_verify :
      (nonce : Text) (now : ℕ) (reg : RegistrationPayload) (issued : Dict Issued)
      → lookup nonce issued ≡ none
      → lookup nonce (verify verify_signature now reg issued).1 ≡ none
  unfolding verify
  absent_verify nonce now reg issued h = elim (Option-cases (given_signatures reg)) [
    | inl missing ↦ rw (missing, verify) h
    | inr (signatures, given) ↦ elim (Option-cases (lookup reg.nonce issued)) [
      | inl nothing ↦ rw (given, nothing, verify) h
      | inr (entry, known) ↦
          rw (given, known, verify) (absent_check nonce now reg signatures entry issued h)
    ]
  ]

  absent_events :
      (nonce : Text) (events : List Event) (issued : Dict Issued)
      → All (IssuesOther nonce) events
      → lookup nonce issued ≡ none
      → lookup nonce (apply_events events issued) ≡ none
  unfolding apply_events
  absent_events nonce [] issued others h = h
  absent_events nonce (issuing ttl now other key ∷ events) issued (differs, others) h =
      absent_events nonce events (issue ttl now other key issued) others
        (absent_issue nonce ttl now other key issued differs h)
  absent_events nonce (verifying now reg ∷ events) issued (_, others) h =
      absent_events nonce events (verify verify_signature now reg issued).1 others
        (absent_verify nonce now reg issued h)

  accepted_gone :
      (now : ℕ) (reg : RegistrationPayload) (issued : Dict Issued)
      → IsAccepted verify_signature now reg issued
      → lookup reg.nonce (verify verify_signature now reg issued).1 ≡ none
  unfolding verify check_entry
  accepted_gone now reg issued a =
      let s = a.signed in
      let good =
        any_verifies_complete verify_signature reg.nonce a.signatures s.signature s.listed
          s.filled.0 s.filled.1 s.verifies in
      let alive : ltb a.entry.expires_at now ≡ false = ground (arith, a.alive) in
      let same : text_eq a.entry.key reg.key ≡ true = (text_eq_iff a.entry.key reg.key).1 a.owner in
      rw (a.given, a.known, verify)
        (rw (alive, same, good)
          (lookup-delete reg.nonce reg.nonce issued ∙ rw (text_eq_refl reg.nonce) refl))

  refuses :
      (now : ℕ) (reg : RegistrationPayload) (issued : Dict Issued) (key : Text)
      → lookup reg.nonce issued ≡ none
      → (verify verify_signature now reg issued).0 ≢ ok key
  unfolding verify
  refuses now reg issued key gone h = elim (Option-cases (given_signatures reg)) [
    | inl missing ↦ ground arith
    | inr (signatures, given) ↦ ground arith
  ]

  -- A nonce is good for one registration: after one is accepted, whatever nonces are issued, other
  -- than this one, and whatever is checked, no registration with it is accepted at any time.
  pub nonce_used_once :
      (now : ℕ) (reg : RegistrationPayload) (issued : Dict Issued)
      → (verify verify_signature now reg issued).0 ≡ ok reg.key
      → (events : List Event) → All (IssuesOther reg.nonce) events
      → (later : ℕ) (again : RegistrationPayload) (key : Text) → again.nonce ≡ reg.nonce
      → (verify verify_signature later again
          (apply_events events (verify verify_signature now reg issued).1)).0
        ≢ ok key
  nonce_used_once now reg issued h events others later again key same =
      let a = (verify-IsAccepted verify_signature now reg issued).0 h in
      let gone =
        absent_events reg.nonce events (verify verify_signature now reg issued).1 others
          (accepted_gone now reg issued a) in
      refuses later again (apply_events events (verify verify_signature now reg issued).1) key (
        subst
          (λ (n : Text).
            lookup n (apply_events events (verify verify_signature now reg issued).1) ≡ none)
          (sym same) gone)
