-- ===== src/Rbac/Authorize/Ordering.antt =====
-- The order of the checks: which requests stand before the verification of a token.
use compute_contract_referen.Base.{refl, and_then-All, ◌≡◌, All, Text, ok, err, and_then_err, pure}
use compute_contract_referen.Rbac.{AuthError}
use compute_contract_referen.Oidc.{resolve_key, validate}
use compute_contract_referen.Oidc.Validated.{IsKeyRequest, validate_requests}
use compute_contract_referen.Rbac.Authorize.{
  Net, raise_if_unauthorized, peek_iss, validate_service_auth, raise_if_unauthorized_service_auth,
}

module _ (net : Net) (service scope token path method : Text) where
  -- Where the token does not verify for a configured issuer, that error is the answer, and the only
  -- requests made are for the keys of configured issuers.
  pub unverified_requests :
      (e : AuthError)
      → (validate net.jose token net.jose.trusted).0 ≡ err e
      → ((raise_if_unauthorized net service scope token path method).0 ≡ err e)
        × All (IsKeyRequest net.jose) (raise_if_unauthorized net service scope token path method).1
  unfolding raise_if_unauthorized
  unverified_requests e h =
      rw (and_then_err (validate net.jose token net.jose.trusted) _ e h)
        (refl, validate_requests net.jose token net.jose.trusted)

  -- A service-auth token that does not verify is denied, and at most the key of the issuer that it
  -- names has been resolved.
  pub unverified_service_requests :
      (operator_handle : Text) (e : AuthError)
      → (validate_service_auth net token service).0 ≡ err e
      → ((raise_if_unauthorized_service_auth net service scope operator_handle token path method).0
          ≡ err e)
        × All
            (λ r. (iss : Text) × (peek_iss net token ≡ ok iss) × (r ≡ resolve_key iss))
            (raise_if_unauthorized_service_auth net service scope operator_handle token path
              method).1
  unfolding raise_if_unauthorized_service_auth validate_service_auth
  unverified_service_requests operator_handle e h =
      rw (and_then_err (validate_service_auth net token service) _ e h) (
        refl,
        and_then-All _ (pure (peek_iss net token)) _ tt (λ iss peeked. ((iss, peeked, refl), tt)),
      )
