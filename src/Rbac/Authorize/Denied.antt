-- ===== src/Rbac/Authorize/Denied.antt =====
-- What a token that verifies is denied for before any policy is looked at: no PDS, or no record there.
use compute_contract_referen.Base.{
  arith, refl, ap, ◌≡◌, ◌≢◌, ◌∙◌, ◌⊎◌, ◌||◌, inl, inr, Bool, true, false, Bool-cases, Option,
  Option-cases, none, some, List, [], ◌∷◌, ◌++◌, All, codes, Text, text_eq, text_eq_iff,
  Result-cases, ok, err, Traced, and_then, and_then_at, and_then_err,
}
use compute_contract_referen.Rbac.{RbacRecord, AuthError, rbac_lookup_failed}
use compute_contract_referen.Rbac.Records.{get_rbac_record}
use compute_contract_referen.Oidc.{OidcToken, Request, validate}
use compute_contract_referen.Rbac.Authorize.{
  Net, DidService, document_url, find_pds, endpoint_of, resolve_pds, fetch_rbac, qualified_actx,
  lookup_rbac, raise_if_unauthorized,
}
use compute_contract_referen.Rbac.Authorize.Admits.{lookup_rbac_ok}

-- The service is a PDS, by its type or its id.
abbrev pub IsPds : DidService → Type 0
IsPds s = (s.type ≡ codes "AtprotoPersonalDataServer") ⊎ (s.id ≡ codes "#atproto_pds")

-- The DID's document is found, and the first PDS among its services has this endpoint, which is not
-- empty.
pub record Locates (net : Net) (did pds : Text) : Type 0 where
  pub url : Text
  pub supported : document_url did ≡ some url
  pub earlier : List DidService
  pub service : DidService
  pub later : List DidService
  pub found : net.document_at url ≡ some (earlier ++ service ∷ later)
  pub others : All (λ s. ¬ IsPds s) earlier
  pub is_pds : IsPds service
  pub endpoint : service.service_endpoint ≡ pds
  pub nonempty : pds ≢ []

abbrev FirstPds : List DidService → Text → Type 0
FirstPds services pds =
    (earlier : List DidService) × (service : DidService) × (later : List DidService) × (services
      ≡ earlier ++ service ∷ later)
    × All (λ s. ¬ IsPds s) earlier
    × IsPds service
    × (service.service_endpoint ≡ pds)

abbrev pds_test : DidService → Bool
pds_test s =
    text_eq s.type (codes "AtprotoPersonalDataServer") || text_eq s.id (codes "#atproto_pds")

test-IsPds : (s : DidService) → (pds_test s ≡ true) → IsPds s
test-IsPds s h = elim (Bool-cases (text_eq s.type (codes "AtprotoPersonalDataServer"))) [
  | inl by_type ↦ inl ((text_eq_iff s.type (codes "AtprotoPersonalDataServer")).0 by_type)
  | inr other ↦ inr ((text_eq_iff s.id (codes "#atproto_pds")).0 (ground (arith, other, h)))
]

no_test-IsPds : (s : DidService) → (pds_test s ≡ false) → ¬ IsPds s
no_test-IsPds s h (inl by_type) =
    let e = (text_eq_iff s.type (codes "AtprotoPersonalDataServer")).1 by_type in
    ground (arith, e, h)
no_test-IsPds s h (inr by_id) =
    let e = (text_eq_iff s.id (codes "#atproto_pds")).1 by_id in ground (arith, e, h)

find_pds-FirstPds :
    (services : List DidService) (pds : Text) → find_pds services ≡ some pds → FirstPds services pds
unfolding find_pds
find_pds-FirstPds [] pds h = cc
find_pds-FirstPds (s ∷ services) pds h = elim (Bool-cases (pds_test s)) [
  | inl here ↦ ([], s, services, refl, tt, test-IsPds s here, ground (arith, here, h))
  | inr not_here ↦
      let (earlier, service, later, split, others, is_pds, endpoint) =
        find_pds-FirstPds services pds (ground (arith, not_here, h)) in
      (
        s ∷ earlier,
        service,
        later,
        ap (λ l. s ∷ l) split,
        (no_test-IsPds s not_here, others),
        is_pds,
        endpoint,
      )
]

endpoint_of_ok :
    (did pds : Text) (found : Option Text)
    → endpoint_of did found ≡ ok pds
    → (found ≡ some pds) × (pds ≢ [])
unfolding endpoint_of
endpoint_of_ok did pds none h = cc
endpoint_of_ok did pds (some other) h = elim (Bool-cases (text_eq other [])) [
  | inl empty ↦ absurd (ground (arith, empty, h))
  | inr given ↦
      let same : other ≡ pds = ground (arith, given, h) in
      (ap some same, λ e. let t = (text_eq_iff other []).1 (same ∙ e) in ground (arith, t, given))
]

module _ (net : Net) where
  resolve_pds-Locates : (did pds : Text) → (resolve_pds net did).0 ≡ ok pds → Locates net did pds
  unfolding resolve_pds
  resolve_pds-Locates did pds h = elim (Option-cases (document_url did)) [
    | inl unsupported ↦ absurd (ground (arith, unsupported, h))
    | inr (url, supported) ↦ elim (Option-cases (net.document_at url)) [
      | inl missing ↦ absurd (ground (arith, supported, missing, h))
      | inr (services, found) ↦
          let (first, nonempty) =
            endpoint_of_ok did pds (find_pds services) (ground (arith, supported, found, h)) in
          let (earlier, service, later, split, others, is_pds, endpoint) =
            find_pds-FirstPds services pds first in
          record {
            url = url;
            supported = supported;
            earlier = earlier;
            service = service;
            later = later;
            found = found ∙ ap some split;
            others = others;
            is_pds = is_pds;
            endpoint = endpoint;
            nonempty = nonempty;
          }
    ]
  ]

module _ (net : Net) (service scope token path method : Text) where
  lookup_rbac_err :
      (actx : Text) (e : AuthError)
      → (lookup_rbac net service scope actx).0 ≡ err e
      → e ≡ rbac_lookup_failed actx
  unfolding lookup_rbac
  lookup_rbac_err actx e h =
      elim (Result-cases
        ((and_then (resolve_pds net actx) (λ pds. fetch_rbac net pds actx service scope)).0)) [
          | inl (e', failed) ↦ ground (arith, failed, h)
          | inr (rbac, done) ↦ absurd (ground (arith, done, h))
        ]

  -- A token that verifies is denied, with the error for a failed lookup, unless the document of its
  -- actx's DID is found, has a PDS, and that PDS has a record for the service and the scope.
  pub failed_lookup_denies :
      (t : OidcToken)
      → (validate net.jose token net.jose.trusted).0 ≡ ok t
      → ((pds : Text) (rbac : RbacRecord)
          → Locates net (qualified_actx t.actx) pds
          → get_rbac_record
              (net.rbac_records pds (qualified_actx t.actx))
              net.page_fuel
              (qualified_actx t.actx)
              service
              scope
            ≡ ok rbac
          → ⊥)
      → (raise_if_unauthorized net service scope token path method).0
        ≡ err (rbac_lookup_failed (qualified_actx t.actx))
  unfolding raise_if_unauthorized
  failed_lookup_denies t h none_there =
      let actx = qualified_actx t.actx in
      elim (Result-cases ((lookup_rbac net service scope actx).0)) [
        | inr (rbac, found) ↦
            let (pds, located, fetched) =
              lookup_rbac_ok net service scope token path method actx rbac found in
            absurd (none_there pds rbac (resolve_pds-Locates net actx pds located) fetched)
        | inl (e, lost) ↦
            let same = lookup_rbac_err actx e lost in
            and_then_at (validate net.jose token net.jose.trusted) _ t h
            ∙ ap (λ (r : Traced Request AuthError OidcToken). r.0)
                (and_then_err (lookup_rbac net service scope actx) _ e lost)
            ∙ ap err same
      ]
