-- ===== src/Rbac/Policy.antt =====
-- `findMatchingSchema` and `checkRBACPolicy` of src/typescript/lib/rbac-helper/mod.ts
pub mod Best
pub mod Permits
use compute_contract_referen.Base.{
  ℕ, ◌-◌, Bool, true, false, ◌&&◌, Option, none, some, List, [], ◌∷◌, ◌++◌, ltb, leb, length, map,
  if◌then◌else◌, Text, text_eq, codes, includes, Dict, lookup, values, Result, ok, err,
}
use compute_contract_referen.Rbac.{
  RbacSchema, RbacPolicy, RbacRole, RbacRecord, AuthError, unsupported_method, no_matching_role,
  denied, no_policy_covers,
}
use compute_contract_referen.Rbac.Glob.{glob_match}

-- The loop over the entries: the longest pattern so far and its schema.
unfoldable pub best_schema : Text → Text → Option RbacSchema → Dict RbacSchema → Option RbacSchema
best_schema path best found [] = found
best_schema path best found ((pattern, schema) ∷ schemas) =
    let better = best_schema path pattern (some schema) schemas in
    let same = best_schema path best found schemas in
    if glob_match pattern path && ltb (length best) (length pattern) then better else same

unfoldable pub find_matching_schema : Dict RbacSchema → Text → Option RbacSchema
unfolding best_schema lookup
find_matching_schema schemas path = elim (lookup path schemas) [
  | some schema ↦ some schema
  | none ↦ best_schema path [] none schemas
]

upper_unit : ℕ → ℕ
upper_unit c = if leb b'a' c && leb c b'z' then c - 32 else c

-- `s.toUpperCase()` on the ASCII text of a method
unfoldable pub to_upper_case : Text → Text
unfolding upper_unit
to_upper_case s = map upper_unit s

abbrev pub http_method_capability : Dict Text
http_method_capability =
    (codes "GET", codes "read")
    ∷ (codes "HEAD", codes "read")
    ∷ (codes "OPTIONS", codes "read")
    ∷ (codes "POST", codes "create")
    ∷ (codes "PUT", codes "update")
    ∷ (codes "PATCH", codes "update")
    ∷ (codes "DELETE", codes "delete")
    ∷ []

unfoldable pub capability_of : Text → Option Text
unfolding lookup to_upper_case
capability_of method = lookup (to_upper_case method) http_method_capability

-- The policies that the roles with the subject name.
unfoldable pub matching_policies : Text → List RbacRole → List Text
unfolding text_eq
matching_policies sub [] = []
matching_policies sub (role ∷ roles) =
    let rest = matching_policies sub roles in
    if text_eq role.definition.sub sub then role.definition.policies ++ rest else rest

-- What is thrown when no policy permitted the request.
refusal : Text → Text → List Text → Result AuthError (Unit {0})
refusal sub path [] = err (no_policy_covers path sub)
refusal sub path (d ∷ ds) = err (denied (d ∷ ds))

-- The loop over the policy names; a denial is recorded by its policy's name.
unfoldable pub check_policies :
    RbacRecord → Text → Text → Text → List Text → List Text → Result AuthError (Unit {0})
unfolding find_matching_schema includes refusal
check_policies rbac sub path capability denials [] = refusal sub path denials
check_policies rbac sub path capability denials (name ∷ names) =
    let next = check_policies rbac sub path capability denials names in
    let refused = check_policies rbac sub path capability (denials ++ name ∷ []) names in
    elim (lookup name rbac.policies) [
      | none ↦ next
      | some policy ↦ elim (find_matching_schema policy.schemas path) [
        | none ↦ next
        | some schema ↦ if includes schema.capability capability then ok tt else refused
      ]
    ]

unfoldable pub check_rbac_policy : RbacRecord → Text → Text → Text → Result AuthError (Unit {0})
unfolding capability_of matching_policies check_policies
check_rbac_policy rbac sub path method = elim (capability_of method) [
  | none ↦ err (unsupported_method method)
  | some capability ↦ elim (matching_policies sub (values rbac.roles)) [
    | [] ↦ err (no_matching_role sub)
    | name ∷ names ↦ check_policies rbac sub path capability [] (name ∷ names)
  ]
]
