-- ===== src/Rbac/Records.antt =====
-- `getRBACRecord`, `getServiceAllowlist`, `checkAllowedToUseService` and `collectIssuers` of
-- src/typescript/lib/rbac-helper/mod.ts. The answers of `listRecords` are a function of the cursor
-- that is asked for; the loop over the pages takes fuel, one unit for each request.
pub mod Pages
pub mod Scoped
use compute_contract_referen.Base.{
  ℕ, zero, suc, ◌+◌, Bool, true, false, ◌||◌, Option, none, some, List, [], ◌∷◌, ◌++◌, ◌==◌,
  if◌then◌else◌, Text, text_eq, codes, includes, Dict, put, values, Result, ok, err,
}
use compute_contract_referen.Rbac.{
  RbacPolicy, RbacRole, RbacProtects, RbacRecord, ServiceAllowlistRecord, AuthError,
  not_on_allowlist, list_records_failed, no_protecting_record, still_paging,
}

-- An answer of com.atproto.repo.listRecords; a missing cursor and an empty one both end the list.
pub data Response (R : Type 0) : Type 0 where
  failed : ℕ → Response R
  page : List R → Text → Response R

-- `protects.service === service || protects.service === "*"`, and so for the scope
abbrev names_service : Text → RbacProtects → Bool
names_service service p = text_eq p.service service || text_eq p.service (codes "*")

abbrev names_scope : Text → RbacProtects → Bool
names_scope scope p = elim p.scope [
  | none ↦ false
  | some s ↦ text_eq s scope || text_eq s (codes "*")
]

-- The loop over the entries of `protects`: it ends at the first one that names the service.
unfoldable pub protects_this : Text → Text → List RbacProtects → Bool
unfolding text_eq
protects_this service scope [] = false
protects_this service scope (p ∷ ps) =
    let rest = protects_this service scope ps in
    if names_service service p then names_scope scope p else rest

-- `for (const [name, v] of Object.entries(entries)) joined[name] = v`
unfoldable pub put_all {ℓ} : {V : Type ℓ} → Dict V → Dict V → Dict V
unfolding put
put_all joined [] = joined
put_all joined ((name, v) ∷ entries) = put_all (put name v joined) entries

-- The variables of the loop.
pub record Collected (J : Type 0) : Type 0 where
  pub joined : J
  pub any_protects : Bool
  pub total : ℕ

unfoldable pub add_rbac_record :
    Text → Text → Collected RbacRecord → RbacRecord → Collected RbacRecord
unfolding protects_this put_all
add_rbac_record service scope c rbac =
    if protects_this service scope (values rbac.protects)
    then record {
      joined = record (c.joined) {
        policies = put_all c.joined.policies rbac.policies;
        roles = put_all c.joined.roles rbac.roles;
      };
      any_protects = true;
      total = c.total + 1;
    }
    else c

unfoldable pub add_allowlist :
    Text
    → Text
    → Collected ServiceAllowlistRecord
    → ServiceAllowlistRecord
    → Collected ServiceAllowlistRecord
unfolding protects_this put_all
add_allowlist service scope c allowlist =
    if protects_this service scope (values allowlist.protects)
    then record {
      joined = record (c.joined) { allowed = put_all c.joined.allowed allowlist.allowed };
      any_protects = true;
      total = c.total + 1;
    }
    else c

module _ {R J : Type 0} (add : Collected J → R → Collected J) where
  -- The loop over the records of one page.
  unfoldable pub add_all : Collected J → List R → Collected J
  add_all c [] = c
  add_all c (r ∷ rs) = add_all (add c r) rs

  -- The loop over the pages.
  unfoldable pub list_pages :
      Text → (Text → Response R) → ℕ → Text → Collected J → Result AuthError (Collected J)
  unfolding add_all text_eq
  list_pages did fetch zero cursor c = err still_paging
  list_pages did fetch (suc fuel) cursor c = elim (fetch cursor) [
    | failed status ↦ err (list_records_failed did)
    | page records next ↦
        let more = list_pages did fetch fuel next (add_all c records) in
        if text_eq next [] then ok (add_all c records) else more
  ]

-- The two tests behind the loop.
unfoldable pub finish_pages {ℓ} : {J : Type ℓ} → Text → Bool → ℕ → J → Result AuthError J
finish_pages did any_protects total joined =
    if any_protects
    then (if total == 0 then err (no_protecting_record did) else ok joined)
    else err (no_protecting_record did)

abbrev finish : {J : Type 0} → Text → Result AuthError (Collected J) → Result AuthError J
finish did (err e) = err e
finish did (ok c) = finish_pages did c.any_protects c.total c.joined

abbrev pub no_rbac : Collected RbacRecord
no_rbac = record {
  joined = record { protects = []; policies = []; roles = [] };
  any_protects = false;
  total = 0;
}

abbrev pub no_allowlist : Collected ServiceAllowlistRecord
no_allowlist = record {
  joined = record { protects = []; allowed = [] };
  any_protects = false;
  total = 0;
}

unfoldable pub get_rbac_record :
    (Text → Response RbacRecord) → ℕ → Text → Text → Text → Result AuthError RbacRecord
unfolding list_pages add_rbac_record finish_pages
get_rbac_record fetch fuel did service scope =
    finish did (list_pages (add_rbac_record service scope) did fetch fuel [] no_rbac)

unfoldable pub get_service_allowlist :
    (Text → Response ServiceAllowlistRecord)
    → ℕ
    → Text
    → Text
    → Text
    → Result AuthError ServiceAllowlistRecord
unfolding list_pages add_allowlist finish_pages
get_service_allowlist fetch fuel did service scope =
    finish did (list_pages (add_allowlist service scope) did fetch fuel [] no_allowlist)

-- Some list of the allowlist includes the issuer.
unfoldable pub any_includes : List (List Text) → Text → Bool
unfolding includes
any_includes [] iss = false
any_includes (dids ∷ rest) iss = includes dids iss || any_includes rest iss

unfoldable pub check_allowed_to_use_service :
    ServiceAllowlistRecord → Text → Result AuthError (Unit {0})
unfolding any_includes
check_allowed_to_use_service allowlist iss =
    if any_includes (values allowlist.allowed) iss then ok tt else err (not_on_allowlist iss)

-- `[...new Set(items)]`, from the items seen so far
unfoldable pub unique_from : List Text → List Text → List Text
unfolding includes
unique_from seen [] = seen
unique_from seen (item ∷ items) =
    unique_from (if includes seen item then seen else seen ++ item ∷ []) items

-- The issuers that are not empty.
issuers_of : List RbacRole → List Text
issuers_of [] = []
issuers_of (role ∷ roles) =
    let rest = issuers_of roles in
    if text_eq role.definition.iss [] then rest else role.definition.iss ∷ rest

unfoldable pub collect_issuers : RbacRecord → List Text
unfolding unique_from issuers_of
collect_issuers rbac = unique_from [] (issuers_of (values rbac.roles))
