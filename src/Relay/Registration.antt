-- ===== src/Relay/Registration.antt =====
-- `onOpen` of the subscriber's socket in src/typescript/lib/hono-factory-xrpc-relay/mod.ts: the checks of
-- the registration. The JSON of the query parameter is `none` where it cannot be parsed.
use compute_contract_referen.Base.{
  arith, refl, sym, ap, ◌∙◌, text_eq_refl, ◌≡◌, ◌↔◌, inl, inr, ℕ, Bool, true, Bool-cases, Option,
  Option-cases, none, some, [], ◌∷◌, ◌++◌, if◌then◌else◌, Text, text_eq, text_eq_iff, codes,
  starts_with, Dict, Result, ok, err, lookup,
}
use compute_contract_referen.Relay.{RelayState}
use compute_contract_referen.Relay.Nonces.{
  Issued, RegistrationPayload, Refusal, verify, given_signatures, check_entry,
}
use compute_contract_referen.Relay.Nonces.Accepted.{IsAccepted, verify-IsAccepted}
use compute_contract_referen.Relay.Server.{subscriber_connected}

-- Why the socket is closed, with code 1008.
pub data Rejection : Type 0 where
  not_did_key : Rejection
  malformed : Rejection
  rejected : Refusal → Rejection
  did_mismatch : Rejection

module _ (verify_signature : Text → Text → Text → Bool) where
  -- `if (result.key !== clientDid)`
  abbrev pub match_did : Text → Result Refusal Text → Result Rejection Text
  match_did did (err reason) = err (rejected reason)
  match_did did (ok key) = if text_eq key did then ok key else err did_mismatch

  -- The checks; the key that is registered, and the nonces that are left.
  unfoldable pub check_registration :
      ℕ → Text → Option RegistrationPayload → Dict Issued → Result Rejection Text × Dict Issued
  unfolding starts_with verify text_eq
  check_registration now did parsed issued =
      if starts_with did (codes "did:key:")
      then elim parsed [
        | none ↦ (err malformed, issued)
        | some reg ↦ (
          match_did did (verify verify_signature now reg issued).0,
          (verify verify_signature now reg issued).1,
        )
      ]
      else (err not_did_key, issued)

  -- `onOpen`
  unfoldable pub subscriber_opened :
      ℕ
      → Text
      → Text
      → Text
      → Option RegistrationPayload
      → ℕ
      → Dict Issued
      → RelayState
      → RelayState × Dict Issued
  unfolding check_registration subscriber_connected
  subscriber_opened now did subdomain acknowledgement parsed ws issued s =
      let (answer, left) = check_registration now did parsed issued in
      elim answer [
        | ok key ↦ (subscriber_connected subdomain ws acknowledgement s, left)
        | err reason ↦ (record s { closed = s.closed ++ (ws, 1008) ∷ [] }, left)
      ]

  verify_key :
      (now : ℕ) (reg : RegistrationPayload) (issued : Dict Issued) (key : Text)
      → (verify verify_signature now reg issued).0 ≡ ok key
      → key ≡ reg.key
  unfolding verify check_entry
  verify_key now reg issued key h = elim (Option-cases (given_signatures reg)) [
    | inl missing ↦ absurd (ground arith)
    | inr (signatures, given) ↦ elim (Option-cases (lookup reg.nonce issued)) [
      | inl nothing ↦ absurd (ground arith)
      | inr (entry, known) ↦ ground arith
    ]
  ]

  match_did_ok : (did : Text) (r : Result Refusal Text) → match_did did r ≡ ok did → r ≡ ok did
  match_did_ok did (err reason) h = cc
  match_did_ok did (ok key) h = ground (arith, text_eq_iff key did)

  opened :
      (now : ℕ) (did : Text) (reg : RegistrationPayload) (issued : Dict Issued)
      → starts_with did (codes "did:key:") ≡ true
      → (match_did did (verify verify_signature now reg issued).0 ≡ ok did)
        ↔ (true ≡ true)
          × ((r : RegistrationPayload) × (some reg ≡ some r)
              × (r.key ≡ did)
              × IsAccepted verify_signature now r issued)
  opened now did reg issued key = (
    λ h.
        let good = match_did_ok did (verify verify_signature now reg issued).0 h in
        let same : reg.key ≡ did = sym (verify_key now reg issued did good) in
        (
          refl,
          (
            reg,
            refl,
            same,
            (verify-IsAccepted verify_signature now reg issued).0 (good ∙ ap ok (sym same)),
          ),
        ),
    λ (_, (r, e, same, a)).
        let here : r ≡ reg = ground arith in
        let good = (verify-IsAccepted verify_signature now r issued).1 a in
        rw (← here, good, same) (rw (text_eq_refl did) refl),
  )

  -- A subscriber is registered under its DID exactly when that is a did:key, the registration can be
  -- read and has it as its key, and the registration is accepted.
  pub check_registration-IsAccepted :
      (now : ℕ) (did : Text) (parsed : Option RegistrationPayload) (issued : Dict Issued)
      → ((check_registration now did parsed issued).0 ≡ ok did)
        ↔ (starts_with did (codes "did:key:") ≡ true)
          × ((reg : RegistrationPayload) × (parsed ≡ some reg)
              × (reg.key ≡ did)
              × IsAccepted verify_signature now reg issued)
  unfolding check_registration
  check_registration-IsAccepted now did none issued =
      (λ h. absurd (ground arith), λ (_, (reg, e, _, _)). absurd cc)
  check_registration-IsAccepted now did (some reg) issued =
      elim (Bool-cases (starts_with did (codes "did:key:"))) [
        | inr other ↦ rw (other, check_registration) (λ h. absurd cc, λ (h, _). absurd cc)
        | inl key ↦ rw (key, check_registration) (opened now did reg issued key)
      ]
