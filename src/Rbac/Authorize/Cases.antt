-- ===== src/Rbac/Authorize/Cases.antt =====
-- Concrete requests through `raiseIfUnauthorized` and `raiseIfUnauthorizedServiceAuth`: one that is
-- admitted, one whose token does not verify, and one whose record is not found.
use compute_contract_referen.Base.{
  refl, ◌≡◌, none, some, [], ◌∷◌, All, Text, text_eq, codes, Dict, err, if◌then◌else◌,
}
use compute_contract_referen.Rbac.{
  RbacSchema, RbacPolicy, RbacRole, RbacProtects, RbacRecord, ServiceAllowlistRecord, AuthError,
  rbac_lookup_failed, no_token, iss_not_did, resolution_failed, failed_validation,
}
use compute_contract_referen.Rbac.Policy.{capability_of}
use compute_contract_referen.Rbac.Records.{Response, page}
use compute_contract_referen.Oidc.{Jose, OidcToken, validate}
use compute_contract_referen.Oidc.Validated.{IsKeyRequest}
use compute_contract_referen.Rbac.Authorize.{
  DidService, Claims, Net, AuthToken, resolve_pds, fetch_rbac, qualified_actx,
  raise_if_unauthorized, peek_iss, short_actx, validate_service_auth,
  raise_if_unauthorized_service_auth,
}
use compute_contract_referen.Rbac.Authorize.Admits.{
  IsAdmitted, IsAdmittedService, raise_if_unauthorized_sound,
  raise_if_unauthorized_service_auth_sound,
}
use compute_contract_referen.Rbac.Authorize.Ordering.{unverified_requests}
use compute_contract_referen.Rbac.Authorize.Denied.{Locates, failed_lookup_denies}

abbrev service : Text
service = codes "svc"

abbrev path : Text
path = codes "/v2/account"

abbrev policy : RbacPolicy
policy = record { meta = []; schemas = (path, record { capability = codes "read" ∷ [] }) ∷ [] }

abbrev role : Text → RbacRole
role sub = record {
  role_name = codes "r";
  definition = record { iss = []; aud = none; sub = sub; policies = codes "p" ∷ [] };
}

abbrev protects : Dict RbacProtects
protects = (codes "x", record { service = service; scope = some (codes "*") }) ∷ []

abbrev rbac : RbacRecord
rbac = record {
  protects = protects;
  policies = (codes "p", policy) ∷ [];
  roles = (codes "o", role (codes "actx:a")) ∷ (codes "s", role (codes "did:plc:u")) ∷ [];
}

abbrev jose : Jose
jose = record {
  issuer_url = codes "own";
  trusted = [];
  unverified_aud = λ token. some (codes "api://D?actx=a");
  actx_param = λ query. some (codes "a");
  verify = λ token issuer aud.
      if text_eq token (codes "g.o.d") then some (record { sub = codes "actx:a" }) else none;
}

abbrev pds_service : DidService
pds_service = record {
  id = codes "#atproto_pds";
  type = codes "AtprotoPersonalDataServer";
  service_endpoint = codes "https://pds";
}

abbrev net : Net
net = record {
  jose = jose;
  document_at = λ url. some (pds_service ∷ []);
  rbac_records = λ pds did cursor. page (rbac ∷ []) [];
  allowlist_records = λ pds did cursor.
      page (record { protects = protects; allowed = (codes "a", codes "did:plc:u" ∷ []) ∷ [] } ∷ [])
        [];
  unverified_iss = λ token. some (codes "did:plc:u");
  verify_jwt =
      λ token aud. if text_eq token (codes "g.o.d") then some (record { sub = none }) else none;
  handle_did = λ handle. some (codes "did:plc:o");
  host_of = λ url. codes "svc";
  page_fuel = 3;
}

-- The same, with no DID document.
abbrev lost : Net
lost = record net { document_at = λ url. none }

abbrev good : Text
good = codes "g.o.d"

abbrev bad : Text
bad = codes "b.a.d"

abbrev admitted : OidcToken
admitted = record {
  actx = codes "a";
  api = codes "D";
  aud = codes "api://D?actx=a";
  sub = codes "actx:a";
  as_string = good;
}

abbrev admitted_service : AuthToken
admitted_service = record { sub = codes "did:plc:u"; actx = codes "u"; as_string = good }

raise_if_unauthorized_sound_example :
    IsAdmitted net service (codes "s") good path (codes "GET") admitted
unfolding raise_if_unauthorized validate compute_contract_referen.Rbac.Authorize.lookup_rbac
    resolve_pds qualified_actx fetch_rbac compute_contract_referen.Rbac.Authorize.narrow
    compute_contract_referen.Rbac.Records.collect_issuers
    compute_contract_referen.Rbac.Policy.check_rbac_policy
raise_if_unauthorized_sound_example =
    raise_if_unauthorized_sound net service (codes "s") good path (codes "GET") admitted refl

raise_if_unauthorized_service_auth_sound_example :
    (iss : Text) × (codes "u" ≡ short_actx iss)
    × IsAdmittedService net service
        (codes "s")
        good
        path
        (codes "GET")
        (codes "o.h")
        iss
        (codes "did:plc:u")
unfolding raise_if_unauthorized_service_auth validate_service_auth text_eq
    compute_contract_referen.Rbac.Authorize.operator_did resolve_pds
    compute_contract_referen.Rbac.Authorize.fetch_allowlist
    compute_contract_referen.Rbac.Records.check_allowed_to_use_service fetch_rbac
    compute_contract_referen.Rbac.Policy.check_rbac_policy short_actx
raise_if_unauthorized_service_auth_sound_example =
    raise_if_unauthorized_service_auth_sound net service (codes "s") good path (codes "GET")
      (codes "o.h") admitted_service refl

unverified_requests_example :
    ((raise_if_unauthorized net service (codes "s") bad path (codes "GET")).0
      ≡ err failed_validation)
    × All
        (IsKeyRequest jose)
        (raise_if_unauthorized net service (codes "s") bad path (codes "GET")).1
unfolding validate
unverified_requests_example =
    unverified_requests net service (codes "s") bad path (codes "GET") failed_validation refl

lost-Locates : (did pds : Text) → ¬ Locates lost did pds
lost-Locates did pds located = let found = located.found in cc

failed_lookup_denies_example :
    (raise_if_unauthorized lost service (codes "s") good path (codes "GET")).0
    ≡ err (rbac_lookup_failed (qualified_actx (codes "a")))
unfolding validate
failed_lookup_denies_example =
    failed_lookup_denies lost service (codes "s") good path (codes "GET") admitted refl
      (λ pds rbac located fetched. lost-Locates (qualified_actx (codes "a")) pds located)
