-- ===== src/Market/Verified.antt =====
-- The token of a request that `verifyMarketServiceAuth` of src/typescript/lib/market/auth.ts lets through.
use compute_contract_referen.Base.{
  arith, ◌≡◌, inl, inr, true, Bool-cases, Option, Option-cases, some, List, [], ◌∷◌, Text, codes,
  starts_with, lookup, ok, Result-cases,
}
use compute_contract_referen.Market.{
  JwtPayload, ServiceAuthResult, MarketServerDeps, extract_bearer, before_char,
  service_did_for_host, check_payload, accepted_audiences, verify_market_service_auth,
}
use compute_contract_referen.Market.Audiences.{Accepts, acceptable_sound}

module _ {R : Type 0} (deps : MarketServerDeps R) where
  -- A bearer token verified for the method, its audience is this service under one of its DIDs and, if
  -- it names one, one of the service ids, and its issuer, without a fragment, is `issuer_did`.
  pub record IsVerified (lxm : Text) (ids : List Text) (auth_header : Option Text)
      (issuer_did : Text) : Type 0 where
    pub token : Text
    pub bearer : extract_bearer auth_header ≡ ok token
    pub payload : JwtPayload
    pub verified : deps.verify_jwt token lxm ≡ some payload
    pub aud : Text
    pub service_id : Option Text
    pub audience : payload.aud ≡ some aud
    pub accepted :
        Accepts (service_did_for_host deps.hostname ∷ deps.audience_dids) ids aud service_id
    pub iss : Text
    pub issuer : payload.iss ≡ some iss
    pub is_did : starts_with iss (codes "did:") ≡ true
    pub whole : before_char b'#' iss ≡ issuer_did

  -- What `check_payload` has found.
  record Checked (ids : List Text) (payload : JwtPayload) (auth : ServiceAuthResult) : Type 0 where
    aud : Text
    service_id : Option Text
    audience : payload.aud ≡ some aud
    accepted : Accepts (service_did_for_host deps.hostname ∷ deps.audience_dids) ids aud service_id
    iss : Text
    issuer : payload.iss ≡ some iss
    is_did : starts_with iss (codes "did:") ≡ true
    whole : before_char b'#' iss ≡ auth.issuer_did

  check_payload_ok :
      (ids : List Text) (payload : JwtPayload) (auth : ServiceAuthResult)
      → check_payload (accepted_audiences deps ids) payload ≡ ok auth
      → Checked ids payload auth
  unfolding check_payload
  check_payload_ok ids payload auth h = elim (Option-cases payload.aud) [
    | inl e ↦ absurd (ground arith)
    | inr (aud, audience) ↦ elim (Option-cases (lookup aud (accepted_audiences deps ids))) [
      | inl unknown ↦ absurd (ground arith)
      | inr (s, found) ↦ elim (Option-cases payload.iss) [
        | inl e ↦ absurd (ground arith)
        | inr (iss, issuer) ↦ elim (Bool-cases (starts_with iss (codes "did:"))) [
          | inr other ↦ absurd (ground arith)
          | inl did ↦ record {
            aud = aud;
            service_id = s;
            audience = audience;
            accepted =
                elim (acceptable_sound (service_did_for_host deps.hostname ∷ deps.audience_dids) ids
                  [] aud s found) [ inl a ↦ a | inr none_there ↦ absurd (unfold lookup in cc) ];
            iss = iss;
            issuer = issuer;
            is_did = did;
            whole = ground arith;
          }
        ]
      ]
    ]
  ]

  pub verify_market_service_auth-IsVerified :
      (lxm : Text) (ids : List Text) (auth_header : Option Text) (auth : ServiceAuthResult)
      → verify_market_service_auth deps auth_header lxm ids ≡ ok auth
      → IsVerified lxm ids auth_header auth.issuer_did
  unfolding verify_market_service_auth
  verify_market_service_auth-IsVerified lxm ids auth_header auth h =
      elim (Result-cases (extract_bearer auth_header)) [
        | inl (e, bad) ↦ absurd (ground arith)
        | inr (token, bearer) ↦ elim (Option-cases (deps.verify_jwt token lxm)) [
          | inl refused ↦ absurd (ground arith)
          | inr (payload, verified) ↦
              let c = check_payload_ok ids payload auth (ground arith) in
              record {
                token = token;
                bearer = bearer;
                payload = payload;
                verified = verified;
                aud = c.aud;
                service_id = c.service_id;
                audience = c.audience;
                accepted = c.accepted;
                iss = c.iss;
                issuer = c.issuer;
                is_did = c.is_did;
                whole = c.whole;
              }
        ]
      ]
