-- ===== src/Rbac/Tests.antt =====
-- Concrete runs of the RBAC check: one operator whose record lets the subject read droplets.
use compute_contract_referen.Base.{
  arith, ℕ, true, refl, ◌≡◌, ◌↔◌, ◌⊎◌, none, some, List, [], ◌∷◌, ◌++◌, Text, text_eq, codes,
  split_on, Dict, lookup, ok,
}
use compute_contract_referen.Rbac.{
  RbacSchema, RbacPolicy, RbacRole, RbacProtects, RbacRecord, ServiceAllowlistRecord,
}
use compute_contract_referen.Rbac.Glob.{glob_match, Fills, glob_match_iff, glob_match-append_left}
use compute_contract_referen.Rbac.Policy.{
  best_schema, find_matching_schema, capability_of, matching_policies, check_policies,
  check_rbac_policy,
}
use compute_contract_referen.Rbac.Policy.Best.{IsBest, find_matching_schema-some}
use compute_contract_referen.Rbac.Policy.Permits.{Permits, check_rbac_policy_iff}
use compute_contract_referen.Rbac.Records.{
  Response, page, add_rbac_record, add_all, list_pages, no_rbac,
}
use compute_contract_referen.Rbac.Records.Pages.{Lists, final, list_pages_total, list_pages_sound}

abbrev droplets : Text
droplets = codes "/v2/droplets/*"

abbrev reads : RbacSchema
reads = record { capability = codes "read" ∷ [] }

abbrev policy : RbacPolicy
policy = record { meta = []; schemas = (droplets, reads) ∷ [] }

abbrev role : RbacRole
role = record {
  role_name = codes "r";
  definition = record {
    iss = codes "i";
    aud = none;
    sub = codes "actx:a";
    policies = codes "p" ∷ [];
  };
}

abbrev protects : Dict RbacProtects
protects = (codes "x", record { service = codes "svc"; scope = some (codes "*") }) ∷ []

abbrev rbac : RbacRecord
rbac = record {
  protects = protects;
  policies = (codes "p", policy) ∷ [];
  roles = (codes "r", role) ∷ [];
}

abbrev joined_rbac : RbacRecord
joined_rbac = record { protects = []; policies = rbac.policies; roles = rbac.roles }

abbrev one_page : Text → Response RbacRecord
one_page cursor = page (rbac ∷ []) []

abbrev allowlist : ServiceAllowlistRecord
allowlist = record { protects = protects; allowed = (codes "a", codes "did:plc:u" ∷ []) ∷ [] }

abbrev joined_allowlist : ServiceAllowlistRecord
joined_allowlist = record { protects = []; allowed = allowlist.allowed }

abbrev allowlist_page : Text → Response ServiceAllowlistRecord
allowlist_page cursor = page (allowlist ∷ []) []

glob_match_iff_example :
    (glob_match droplets (codes "/v2/droplets/7") ≡ true)
    ↔ Fills (split_on b'*' droplets) (codes "/v2/droplets/7")
glob_match_iff_example = glob_match_iff droplets (codes "/v2/droplets/7")

glob_match-append_left_example :
    glob_match droplets (codes "/evil" ++ codes "/v2/droplets/7") ≡ true
unfolding glob_match
glob_match-append_left_example =
    glob_match-append_left droplets (codes "/evil") (codes "/v2/droplets/7") refl

find_matching_schema-some_example :
    (lookup (codes "/v2/droplets/7") policy.schemas ≡ some reads)
    ⊎ ((lookup (codes "/v2/droplets/7") policy.schemas ≡ none)
        × IsBest (codes "/v2/droplets/7") policy.schemas reads)
unfolding find_matching_schema best_schema text_eq glob_match
find_matching_schema-some_example =
    find_matching_schema-some policy.schemas (codes "/v2/droplets/7") reads refl

check_rbac_policy_iff_example :
    (check_rbac_policy rbac (codes "actx:a") (codes "/v2/droplets/7") (codes "get") ≡ ok tt)
    ↔ Permits rbac (codes "actx:a") (codes "/v2/droplets/7") (codes "get")
check_rbac_policy_iff_example =
    check_rbac_policy_iff rbac (codes "actx:a") (codes "/v2/droplets/7") (codes "get")

reads_permitted :
    check_rbac_policy rbac (codes "actx:a") (codes "/v2/droplets/7") (codes "get") ≡ ok tt
unfolding check_rbac_policy check_policies matching_policies capability_of glob_match
reads_permitted = refl

list_pages_total_example :
    list_pages (add_rbac_record (codes "svc") (codes "s")) (codes "d") one_page 1 [] no_rbac
    ≡ ok (add_all (add_rbac_record (codes "svc") (codes "s")) no_rbac (rbac ∷ []))
list_pages_total_example =
    list_pages_total (add_rbac_record (codes "svc") (codes "s")) (codes "d") one_page 1 [] no_rbac
      (rbac ∷ []) 1 (final refl refl) (omega arith)

list_pages_sound_example :
    (records : List RbacRecord) × (n : ℕ) × Lists one_page [] records n
    × (add_all (add_rbac_record (codes "svc") (codes "s")) no_rbac (rbac ∷ [])
        ≡ add_all (add_rbac_record (codes "svc") (codes "s")) no_rbac records)
unfolding list_pages
list_pages_sound_example =
    list_pages_sound (add_rbac_record (codes "svc") (codes "s")) (codes "d") one_page 2 [] no_rbac
      (add_all (add_rbac_record (codes "svc") (codes "s")) no_rbac (rbac ∷ [])) refl
