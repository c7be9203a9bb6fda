-- ===== src/Relay/Nonces.antt =====
-- `createNonceStore` of src/typescript/lib/xrpc-relay/auth.ts: the nonces that a subscriber signs to
-- register. The random nonce and the time are arguments; `verifySignature` is a parameter, false
-- where it throws. A missing field and an empty one are treated alike by the source.
pub mod Accepted
pub mod Single
use compute_contract_referen.Base.{
  ℕ, ◌+◌, Bool, true, false, ◌||◌, Option, none, some, List, [], ◌∷◌, ltb, if◌then◌else◌, Text,
  text_eq, Dict, lookup, put, delete, Result, ok, err,
}

pub record Issued : Type 0 where
  pub key : Text
  pub expires_at : ℕ

pub record Signature : Type 0 where
  pub key : Text
  pub signature : Text

pub record RegistrationPayload : Type 0 where
  pub key : Text
  pub nonce : Text
  -- `none` where it is no array
  pub signatures : Option (List Signature)

-- The reasons of a refusal.
pub data Refusal : Type 0 where
  missing_fields : Refusal
  unknown_nonce : Refusal
  nonce_expired : Refusal
  key_mismatch : Refusal
  no_signature : Refusal

-- The nonces that have not expired.
unfoldable pub unexpired : ℕ → Dict Issued → Dict Issued
unexpired now [] = []
unexpired now ((nonce, v) ∷ issued) =
    let rest = unexpired now issued in if ltb v.expires_at now then rest else (nonce, v) ∷ rest

-- `issue`
unfoldable pub issue : ℕ → ℕ → Text → Text → Dict Issued → Dict Issued
unfolding unexpired put
issue ttl now nonce key issued =
    put nonce (record { key = key; expires_at = now + ttl }) (unexpired now issued)

-- `!reg?.key || !reg?.nonce || !Array.isArray(reg?.signatures)`
unfoldable pub given_signatures : RegistrationPayload → Option (List Signature)
unfolding text_eq
given_signatures reg = if text_eq reg.key [] || text_eq reg.nonce [] then none else reg.signatures

module _ (verify_signature : Text → Text → Text → Bool) where
  -- The loop over the signatures.
  unfoldable pub any_verifies : Text → List Signature → Bool
  unfolding text_eq
  any_verifies nonce [] = false
  any_verifies nonce (sig ∷ signatures) =
      let rest = any_verifies nonce signatures in
      if text_eq sig.key [] || text_eq sig.signature []
      then rest
      else if verify_signature sig.key nonce sig.signature
      then true
      else rest

  -- The checks behind the lookup of the nonce.
  unfoldable pub check_entry :
      ℕ
      → RegistrationPayload
      → List Signature
      → Issued
      → Dict Issued
      → Result Refusal Text × Dict Issued
  unfolding any_verifies delete text_eq
  check_entry now reg signatures entry issued =
      if ltb entry.expires_at now
      then (err nonce_expired, delete reg.nonce issued)
      else if text_eq entry.key reg.key
      then (if any_verifies reg.nonce signatures
          then (ok reg.key, delete reg.nonce issued)
          else (err no_signature, issued))
      else (err key_mismatch, issued)

  -- `verify`
  unfoldable pub verify : ℕ → RegistrationPayload → Dict Issued → Result Refusal Text × Dict Issued
  unfolding given_signatures lookup check_entry
  verify now reg issued = elim (given_signatures reg) [
    | none ↦ (err missing_fields, issued)
    | some signatures ↦ elim (lookup reg.nonce issued) [
      | none ↦ (err unknown_nonce, issued)
      | some entry ↦ check_entry now reg signatures entry issued
    ]
  ]
