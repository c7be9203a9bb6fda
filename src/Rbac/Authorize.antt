-- ===== src/Rbac/Authorize.antt =====
-- `resolvePDS`, `validateATProtoServiceAuth`, `raiseIfUnauthorized` and
-- `raiseIfUnauthorizedServiceAuth` of src/typescript/lib/rbac-helper/mod.ts, with the requests that
-- they make. One entry of the trace stands for the whole loop of `listRecords` requests of a
-- collection.
pub mod Admits
pub mod Ordering
pub mod Denied
mod Cases
use compute_contract_referen.Base.{
  ℕ, ◌+◌, Bool, true, false, ◌||◌, Option, none, some, List, [], ◌∷◌, ◌++◌, ◌==◌, if◌then◌else◌,
  drop, length, map, Text, text_eq, codes, starts_with, index_of, split_on, Result, ok, err, Traced,
  and_then, pure,
}
use compute_contract_referen.Rbac.{
  RbacRecord, ServiceAllowlistRecord, AuthError, rbac_lookup_failed, unsupported_did_method,
  resolution_failed, no_pds, invalid_token, iss_not_did, failed_validation, unresolved_handle,
}
use compute_contract_referen.Rbac.Policy.{check_rbac_policy}
use compute_contract_referen.Rbac.Records.{
  Response, get_rbac_record, get_service_allowlist, check_allowed_to_use_service, collect_issuers,
}
use compute_contract_referen.Oidc.{
  Jose, OidcToken, Request, did_document, resolve_handle, resolve_key, list_records, trusted_only,
  validate,
}

pub record DidService : Type 0 where
  pub id : Text
  pub type : Text
  pub service_endpoint : Text

-- The claims of a service-auth token that `verifyJwt` has checked.
pub record Claims : Type 0 where
  pub sub : Option Text

-- What the network and the identity library answer.
pub record Net : Type 0 where
  pub jose : Jose
  -- the services of the DID document at a URL, `none` for a failed request
  pub document_at : Text → Option (List DidService)
  -- the answers of listRecords for a PDS and a repo, by cursor
  pub rbac_records : Text → Text → Text → Response RbacRecord
  pub allowlist_records : Text → Text → Text → Response ServiceAllowlistRecord
  -- the `iss` of a token's payload, not verified; `none` where it is missing or unreadable
  pub unverified_iss : Text → Option Text
  -- `verifyJwt(token, aud, …)` with the keys that the issuer's DID resolves to
  pub verify_jwt : Text → Text → Option Claims
  -- `idResolver.handle.resolve`
  pub handle_did : Text → Option Text
  -- `new URL(url).host`
  pub host_of : Text → Text
  -- the longest list of pages that is followed
  pub page_fuel : ℕ

-- `.replace(/:/g, "/")`
colon_to_slash : Text → Text
colon_to_slash host = map (λ c. if c == b':' then b'/' else c) host

-- The URL of a DID's document, `none` for another method.
unfoldable pub document_url : Text → Option Text
unfolding starts_with colon_to_slash
document_url did =
    if starts_with did (codes "did:plc:")
    then some (codes "https://plc.directory/" ++ did)
    else if starts_with did (codes "did:web:")
    then some (codes "https://" ++ (colon_to_slash (drop 8 did) ++ codes "/.well-known/did.json"))
    else none

-- `services.find((s) => …)?.serviceEndpoint`
unfoldable find_pds : List DidService → Option Text
unfolding text_eq
find_pds [] = none
find_pds (s ∷ services) =
    let rest = find_pds services in
    if text_eq s.type (codes "AtprotoPersonalDataServer") || text_eq s.id (codes "#atproto_pds")
    then some s.service_endpoint
    else rest

unfoldable endpoint_of : Text → Option Text → Result AuthError Text
unfolding text_eq
endpoint_of did none = err (no_pds did)
endpoint_of did (some pds) = if text_eq pds [] then err (no_pds did) else ok pds

pub record ServiceAuth : Type 0 where
  pub iss : Text
  pub sub : Text

pub record AuthToken : Type 0 where
  pub sub : Text
  pub actx : Text
  pub as_string : Text

-- `payload.sub ?? iss`
pub sub_or : Option Text → Text → Text
sub_or none iss = iss
sub_or (some sub) iss = sub

last_part : List Text → Text
last_part [] = []
last_part (p ∷ []) = p
last_part (p ∷ q ∷ ps) = last_part (q ∷ ps)

-- The part of the issuer behind its last colon.
unfoldable pub short_actx : Text → Text
unfolding index_of last_part split_on
short_actx iss = elim (index_of iss (codes ":")) [
  | none ↦ iss
  | some _ ↦ last_part (split_on b':' iss)
]

-- The actx as a whole DID.
unfoldable pub qualified_actx : Text → Text
unfolding starts_with index_of
qualified_actx actx =
    if starts_with actx (codes "did:plc:") || starts_with actx (codes "did:web:")
    then actx
    else elim (index_of actx (codes ".")) [
      | some _ ↦ codes "did:web:" ++ actx
      | none ↦ codes "did:plc:" ++ actx
    ]

module _ (net : Net) where
  unfoldable pub resolve_pds : Text → Traced Request AuthError Text
  unfolding document_url find_pds endpoint_of
  resolve_pds did = elim (document_url did) [
    | none ↦ (err (unsupported_did_method did), [])
    | some url ↦ (
      elim (net.document_at url) [
        | none ↦ err (resolution_failed did)
        | some services ↦ endpoint_of did (find_pds services)
      ],
      did_document url ∷ [],
    )
  ]

  unfoldable pub fetch_rbac : Text → Text → Text → Text → Traced Request AuthError RbacRecord
  unfolding get_rbac_record
  fetch_rbac pds did service scope = (
    get_rbac_record (net.rbac_records pds did) net.page_fuel did service scope,
    list_records pds did ∷ [],
  )

  unfoldable pub fetch_allowlist :
      Text → Text → Text → Text → Traced Request AuthError ServiceAllowlistRecord
  unfolding get_service_allowlist
  fetch_allowlist pds did service scope = (
    get_service_allowlist (net.allowlist_records pds did) net.page_fuel did service scope,
    list_records pds did ∷ [],
  )

  -- The `try` block: whatever it throws is thrown again as an UnauthorizedException.
  unfoldable pub lookup_rbac : Text → Text → Text → Traced Request AuthError RbacRecord
  lookup_rbac service scope actx =
      let found = and_then (resolve_pds actx) λ pds. fetch_rbac pds actx service scope in
      (elim found.0 [ ok rbac ↦ ok rbac | err e ↦ err (rbac_lookup_failed actx) ], found.1)

  -- The second validation, where the record names issuers.
  unfoldable pub narrow : Text → OidcToken → List Text → Traced Request AuthError OidcToken
  narrow token first [] = (ok first, [])
  narrow token first (i ∷ issuers) = validate net.jose token (trusted_only net.jose (i ∷ issuers))

  unfoldable pub raise_if_unauthorized :
      Text → Text → Text → Text → Text → Traced Request AuthError OidcToken
  raise_if_unauthorized service scope token path method =
      and_then (validate net.jose token net.jose.trusted) λ oidc_token.
        and_then (lookup_rbac service scope (qualified_actx oidc_token.actx)) λ rbac.
          and_then (narrow token oidc_token (collect_issuers rbac)) λ _.
            and_then (pure (check_rbac_policy rbac oidc_token.sub path method))
              λ _. pure (ok oidc_token)

  -- The issuer that a token names, if it is a DID.
  did_iss : Text → Result AuthError Text
  unfolding starts_with
  did_iss token = elim (net.unverified_iss token) [
    | none ↦ err iss_not_did
    | some iss ↦ if starts_with iss (codes "did:") then ok iss else err iss_not_did
  ]

  pub peek_iss : Text → Result AuthError Text
  unfolding split_on did_iss
  peek_iss token = if length (split_on b'.' token) == 3 then did_iss token else err invalid_token

  -- `validateATProtoServiceAuth`: the key of the issuer is resolved to verify the token.
  unfoldable pub validate_service_auth : Text → Text → Traced Request AuthError ServiceAuth
  unfolding peek_iss sub_or
  validate_service_auth token service = and_then (pure (peek_iss token)) λ iss. (
    elim (net.verify_jwt token (codes "did:web:" ++ net.host_of service)) [
      | none ↦ err failed_validation
      | some claims ↦ ok (record { iss = iss; sub = sub_or claims.sub iss })
    ],
    resolve_key iss ∷ [],
  )

  unfoldable pub operator_did : Text → Traced Request AuthError Text
  unfolding starts_with
  operator_did handle = if starts_with handle (codes "did:") then (ok handle, []) else (
    elim (net.handle_did handle) [ none ↦ err (unresolved_handle handle) | some did ↦ ok did ],
    resolve_handle handle ∷ [],
  )

  unfoldable pub raise_if_unauthorized_service_auth :
      Text → Text → Text → Text → Text → Text → Traced Request AuthError AuthToken
  raise_if_unauthorized_service_auth service scope operator_handle token path method =
      and_then (validate_service_auth token service) λ auth.
        and_then (operator_did operator_handle) λ operator.
          and_then (resolve_pds operator) λ operator_pds.
            and_then (fetch_allowlist operator_pds operator service scope) λ allowlist.
              and_then (pure (check_allowed_to_use_service allowlist auth.iss)) λ _.
                and_then (resolve_pds auth.iss) λ pds.
                  and_then (fetch_rbac pds auth.iss service scope) λ rbac.
                    and_then (pure (check_rbac_policy rbac auth.sub path method)) λ _. pure (
                      ok (record { sub = auth.sub; actx = short_actx auth.iss; as_string = token }))
