-- ===== src/Rbac/Authorize/Admits.antt =====
-- What `raiseIfUnauthorized` and `raiseIfUnauthorizedServiceAuth` have established when they return.
use compute_contract_referen.Base.{
  arith, ◌∙◌, Option-cases, refl, subst, ◌≡◌, ◌⊎◌, inl, inr, some, List, [], ◌∷◌, ◌++◌, codes, Text,
  ok, and_then_ok, pure,
}
use compute_contract_referen.Rbac.{RbacRecord, ServiceAllowlistRecord}
use compute_contract_referen.Rbac.Policy.{check_rbac_policy}
use compute_contract_referen.Rbac.Policy.Permits.{Permits, check_rbac_policy_iff}
use compute_contract_referen.Rbac.Records.{
  get_rbac_record, get_service_allowlist, check_allowed_to_use_service, collect_issuers,
}
use compute_contract_referen.Oidc.{OidcToken, trusted_only, validate}
use compute_contract_referen.Oidc.Validated.{IsVerified, validate_sound}
use compute_contract_referen.Rbac.Authorize.{
  Net, Claims, AuthToken, ServiceAuth, resolve_pds, fetch_rbac, fetch_allowlist, qualified_actx,
  lookup_rbac, narrow, raise_if_unauthorized, sub_or, peek_iss, validate_service_auth, operator_did,
  raise_if_unauthorized_service_auth, short_actx,
}

module _ (net : Net) (service scope token path method : Text) where
  -- The token verified against the configuration, the record of its actx was found and protects
  -- the service and the scope, the record's own issuers did not exclude the token, and the record
  -- permits the request to the token's subject.
  pub record IsAdmitted (t : OidcToken) : Type 0 where
    pub verified : IsVerified net.jose net.jose.trusted token t
    pub pds : Text
    pub located : (resolve_pds net (qualified_actx t.actx)).0 ≡ ok pds
    pub rbac : RbacRecord
    pub fetched :
        get_rbac_record
          (net.rbac_records pds (qualified_actx t.actx))
          net.page_fuel
          (qualified_actx t.actx)
          service
          scope
        ≡ ok rbac
    pub narrowed :
        (collect_issuers rbac ≡ [])
        ⊎ ((again : OidcToken) × IsVerified net.jose
              (trusted_only net.jose (collect_issuers rbac))
              token
              again)
    pub permitted : Permits rbac t.sub path method

  pub lookup_rbac_ok :
      (actx : Text) (rbac : RbacRecord)
      → (lookup_rbac net service scope actx).0 ≡ ok rbac
      → (pds : Text) × ((resolve_pds net actx).0 ≡ ok pds)
        × (get_rbac_record (net.rbac_records pds actx) net.page_fuel actx service scope ≡ ok rbac)
  unfolding lookup_rbac fetch_rbac
  lookup_rbac_ok actx rbac h =
      and_then_ok (resolve_pds net actx) (λ pds. fetch_rbac net pds actx service scope) rbac
        (ground arith)

  narrow_ok :
      (first again : OidcToken) (issuers : List Text)
      → (narrow net token first issuers).0 ≡ ok again
      → (issuers ≡ [])
        ⊎ ((u : OidcToken) × IsVerified net.jose (trusted_only net.jose issuers) token u)
  unfolding narrow
  narrow_ok first again [] h = inl refl
  narrow_ok first again (i ∷ issuers) h =
      inr (again, validate_sound net.jose token (trusted_only net.jose (i ∷ issuers)) again h)

  -- Who is returned a token has been admitted: it verifies for a configured issuer, and the record
  -- of its actx, which protects the service and the scope, permits the request.
  pub raise_if_unauthorized_sound :
      (t : OidcToken)
      → (raise_if_unauthorized net service scope token path method).0 ≡ ok t
      → IsAdmitted t
  unfolding raise_if_unauthorized
  raise_if_unauthorized_sound t h =
      let (first, v, h1) = and_then_ok (validate net.jose token net.jose.trusted) _ t h in
      let (rbac, l, h2) =
        and_then_ok (lookup_rbac net service scope (qualified_actx first.actx)) _ t h1 in
      let (again, n, h3) = and_then_ok (narrow net token first (collect_issuers rbac)) _ t h2 in
      let (_, p, h4) = and_then_ok (pure (check_rbac_policy rbac first.sub path method)) _ t h3 in
      let same : first ≡ t = ground arith in
      let (pds, located, fetched) = lookup_rbac_ok (qualified_actx first.actx) rbac l in
      subst IsAdmitted same (record {
        verified = validate_sound net.jose token net.jose.trusted first v;
        pds = pds;
        located = located;
        rbac = rbac;
        fetched = fetched;
        narrowed = narrow_ok first again (collect_issuers rbac) n;
        permitted = (check_rbac_policy_iff rbac first.sub path method).0 p;
      })

  -- The service-auth token verified, the operator's allowlist for the service and the scope admits
  -- its issuer, and the issuer's own record permits the request to the token's subject.
  pub record IsAdmittedService (operator_handle iss sub : Text) : Type 0 where
    pub claims : Claims
    pub verified : net.verify_jwt token (codes "did:web:" ++ net.host_of service) ≡ some claims
    pub subject : sub_or claims.sub iss ≡ sub
    pub issuer : peek_iss net token ≡ ok iss
    pub operator : Text
    pub operator_pds : Text
    pub known : (operator_did net operator_handle).0 ≡ ok operator
    pub operator_located : (resolve_pds net operator).0 ≡ ok operator_pds
    pub allowlist : ServiceAllowlistRecord
    pub listed :
        get_service_allowlist
          (net.allowlist_records operator_pds operator)
          net.page_fuel
          operator
          service
          scope
        ≡ ok allowlist
    pub allowed : check_allowed_to_use_service allowlist iss ≡ ok tt
    pub pds : Text
    pub located : (resolve_pds net iss).0 ≡ ok pds
    pub rbac : RbacRecord
    pub fetched :
        get_rbac_record (net.rbac_records pds iss) net.page_fuel iss service scope ≡ ok rbac
    pub permitted : Permits rbac sub path method

  validate_service_auth_ok :
      (auth : ServiceAuth)
      → (validate_service_auth net token service).0 ≡ ok auth
      → (claims : Claims) × (peek_iss net token ≡ ok auth.iss)
        × (net.verify_jwt token (codes "did:web:" ++ net.host_of service) ≡ some claims)
        × (sub_or claims.sub auth.iss ≡ auth.sub)
  unfolding validate_service_auth
  validate_service_auth_ok auth h =
      let (iss, peeked, rest) = and_then_ok (pure (peek_iss net token)) _ auth h in
      elim (Option-cases (net.verify_jwt token (codes "did:web:" ++ net.host_of service))) [
        | inl refused ↦ absurd (ground arith)
        | inr (claims, v) ↦ (claims, ground arith, v, ground arith)
      ]

  -- A service-auth request that is let through has been admitted, under the short form of its issuer.
  pub raise_if_unauthorized_service_auth_sound :
      (operator_handle : Text) (t : AuthToken)
      → (raise_if_unauthorized_service_auth net service scope operator_handle token path method).0
        ≡ ok t
      → (iss : Text) × (t.actx ≡ short_actx iss) × IsAdmittedService operator_handle iss t.sub
  unfolding raise_if_unauthorized_service_auth fetch_allowlist fetch_rbac
  raise_if_unauthorized_service_auth_sound operator_handle t h =
      let (auth, v, h1) = and_then_ok (validate_service_auth net token service) _ t h in
      let (operator, known, h2) = and_then_ok (operator_did net operator_handle) _ t h1 in
      let (operator_pds, at, h3) = and_then_ok (resolve_pds net operator) _ t h2 in
      let (allowlist, listed, h4) =
        and_then_ok (fetch_allowlist net operator_pds operator service scope) _ t h3 in
      let (_, allowed, h5) =
        and_then_ok (pure (check_allowed_to_use_service allowlist auth.iss)) _ t h4 in
      let (pds, located, h6) = and_then_ok (resolve_pds net auth.iss) _ t h5 in
      let (rbac, fetched, h7) = and_then_ok (fetch_rbac net pds auth.iss service scope) _ t h6 in
      let (_, p, h8) = and_then_ok (pure (check_rbac_policy rbac auth.sub path method)) _ t h7 in
      let (claims, issuer, verified, subject) = validate_service_auth_ok auth v in
      let same : auth.sub ≡ t.sub = ground arith in
      (
        auth.iss,
        ground arith,
        record {
          claims = claims;
          verified = verified;
          subject = subject ∙ same;
          issuer = issuer;
          operator = operator;
          operator_pds = operator_pds;
          known = known;
          operator_located = at;
          allowlist = allowlist;
          listed = listed;
          allowed = allowed;
          pds = pds;
          located = located;
          rbac = rbac;
          fetched = fetched;
          permitted =
              subst (λ (s : Text). Permits rbac s path method) same
                ((check_rbac_policy_iff rbac auth.sub path method).0 p);
        },
      )
