-- ===== src/Relay/Nonces/Accepted.antt =====
-- When a registration is accepted.
use compute_contract_referen.Base.{
  arith, refl, ◌≡◌, ◌≢◌, ◌≤◌, ◌↔◌, inl, inr, ℕ, Bool, true, false, ◌||◌, Bool-cases, Option-cases,
  some, List, [], ◌∷◌, Memᴰ, ltb, Text, text_eq, text_eq_iff, Dict, lookup, ok,
}
use compute_contract_referen.Relay.Nonces.{
  Issued, Signature, RegistrationPayload, given_signatures, any_verifies, check_entry, verify,
}

module _ (verify_signature : Text → Text → Text → Bool) where
  -- A signature with its own key, neither of them empty, verifies over the nonce.
  pub record IsSigned (nonce : Text) (signatures : List Signature) : Type 0 where
    pub signature : Signature
    pub listed : Memᴰ signature signatures
    pub filled : (signature.key ≢ []) × (signature.signature ≢ [])
    pub verifies : verify_signature signature.key nonce signature.signature ≡ true

  -- What an accepted registration has: its nonce was issued to its key and has not expired, and a
  -- signature verifies over it.
  pub record IsAccepted (now : ℕ) (reg : RegistrationPayload) (issued : Dict Issued) : Type 0 where
    pub signatures : List Signature
    pub given : given_signatures reg ≡ some signatures
    pub entry : Issued
    pub known : lookup reg.nonce issued ≡ some entry
    pub alive : now ≤ entry.expires_at
    pub owner : entry.key ≡ reg.key
    pub signed : IsSigned reg.nonce signatures

  IsSigned-later :
      (nonce : Text) (sig : Signature) (signatures : List Signature)
      → IsSigned nonce signatures
      → IsSigned nonce (sig ∷ signatures)
  IsSigned-later nonce sig signatures s = record {
    signature = s.signature;
    listed = Memᴰ.tail s.listed;
    filled = s.filled;
    verifies = s.verifies;
  }

  any_verifies-IsSigned :
      (nonce : Text) (signatures : List Signature)
      → any_verifies verify_signature nonce signatures ≡ true
      → IsSigned nonce signatures
  unfolding any_verifies
  any_verifies-IsSigned nonce [] h = cc
  any_verifies-IsSigned nonce (sig ∷ signatures) h =
      elim (Bool-cases (text_eq sig.key [] || text_eq sig.signature [])) [
        | inl skipped ↦
            IsSigned-later nonce sig signatures
              (any_verifies-IsSigned nonce signatures (rw skipped at h))
        | inr filled ↦ elim (Bool-cases (verify_signature sig.key nonce sig.signature)) [
          | inl good ↦ record {
            signature = sig;
            listed = Memᴰ.head refl;
            filled = (
              λ empty. ground (arith, text_eq_iff sig.key []),
              λ empty. ground (arith, text_eq_iff sig.signature []),
            );
            verifies = good;
          }
          | inr bad ↦
              IsSigned-later nonce sig signatures
                (any_verifies-IsSigned nonce signatures (rw (filled, bad) at h))
        ]
      ]

  pub any_verifies_complete :
      (nonce : Text) (signatures : List Signature) (s : Signature)
      → Memᴰ s signatures
      → s.key ≢ []
      → s.signature ≢ []
      → verify_signature s.key nonce s.signature ≡ true
      → any_verifies verify_signature nonce signatures ≡ true
  unfolding any_verifies
  any_verifies_complete nonce [] s m f g v = elim m [ ]
  any_verifies_complete nonce (sig ∷ signatures) s (Memᴰ.head e) f g v =
      let key : text_eq sig.key [] ≡ false = ground (arith, text_eq_iff sig.key []) in
      let filled : text_eq sig.signature [] ≡ false =
        ground (arith, text_eq_iff sig.signature []) in
      let good : verify_signature sig.key nonce sig.signature ≡ true = rw (← e) v in
      rw (key, filled, good) refl
  any_verifies_complete nonce (sig ∷ signatures) s (Memᴰ.tail m) f g v =
      let later = any_verifies_complete nonce signatures s m f g v in ground arith

  accepted :
      (now : ℕ) (reg : RegistrationPayload) (signatures : List Signature) (entry : Issued)
      (issued : Dict Issued)
      → given_signatures reg ≡ some signatures
      → lookup reg.nonce issued ≡ some entry
      → (check_entry verify_signature now reg signatures entry issued).0 ≡ ok reg.key
      → IsAccepted now reg issued
  unfolding check_entry
  accepted now reg signatures entry issued given known h =
      elim (Bool-cases (ltb entry.expires_at now)) [
        | inl late ↦ absurd (ground arith)
        | inr alive ↦ elim (Bool-cases (text_eq entry.key reg.key)) [
          | inr other ↦ absurd (ground arith)
          | inl same ↦ record {
            signatures = signatures;
            given = given;
            entry = entry;
            known = known;
            alive = ground arith;
            owner = (text_eq_iff entry.key reg.key).0 same;
            signed = any_verifies-IsSigned reg.nonce signatures (ground arith);
          }
        ]
      ]

  -- A registration is accepted exactly when its nonce was issued to its key and has not expired, and
  -- one of its signatures verifies over the nonce with the key that the signature itself names.
  pub verify-IsAccepted :
      (now : ℕ) (reg : RegistrationPayload) (issued : Dict Issued)
      → ((verify verify_signature now reg issued).0 ≡ ok reg.key) ↔ IsAccepted now reg issued
  unfolding verify check_entry
  verify-IsAccepted now reg issued = (
    λ h. elim (Option-cases (given_signatures reg)) [
      | inl missing ↦ absurd (ground arith)
      | inr (signatures, given) ↦ elim (Option-cases (lookup reg.nonce issued)) [
        | inl nothing ↦ absurd (ground arith)
        | inr (entry, known) ↦
            accepted now reg signatures entry issued given known (rw (given, known, verify) at h)
      ]
    ],
    λ a.
        let s = a.signed in
        let good =
          any_verifies_complete reg.nonce a.signatures s.signature s.listed s.filled.0 s.filled.1
            s.verifies in
        let alive : ltb a.entry.expires_at now ≡ false = ground (arith, a.alive) in
        let same : text_eq a.entry.key reg.key ≡ true =
          (text_eq_iff a.entry.key reg.key).1 a.owner in
        rw (a.given, a.known, verify) (rw (alive, same, good) refl),
  )
