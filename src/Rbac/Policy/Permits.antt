-- ===== src/Rbac/Policy/Permits.antt =====
-- `checkRBACPolicy` against the policies of the subject's roles.
use compute_contract_referen.Base.{
  arith, Mem-append_left, Mem-append_right, Mem-append_cases, Mem-ne-nil, refl, ◌≡◌, ◌↔◌, inl, inr,
  true, Bool-cases, Option-cases, some, List, [], ◌∷◌, ◌++◌, Memᴰ, Text, text_eq, text_eq_iff,
  includes, Mem-includes, includes-Mem, lookup, values, ok,
}
use compute_contract_referen.Rbac.{RbacSchema, RbacPolicy, RbacRole, RbacRecord}
use compute_contract_referen.Rbac.Policy.{
  find_matching_schema, capability_of, matching_policies, check_policies, check_rbac_policy,
}

-- The named policy exists, and the schema that it has for the path lists the capability.
pub record Allows (rbac : RbacRecord) (path capability name : Text) : Type 0 where
  pub policy : RbacPolicy
  pub schema : RbacSchema
  pub declared : lookup name rbac.policies ≡ some policy
  pub selected : find_matching_schema policy.schemas path ≡ some schema
  pub listed : Memᴰ capability schema.capability

-- A role with the subject names a policy that allows the method's capability on the path.
pub record Permits (rbac : RbacRecord) (sub path method : Text) : Type 0 where
  pub capability : Text
  pub meaning : capability_of method ≡ some capability
  pub role : RbacRole
  pub held : Memᴰ role (values rbac.roles)
  pub subject : role.definition.sub ≡ sub
  pub name : Text
  pub named : Memᴰ name role.definition.policies
  pub allows : Allows rbac path capability name

-- The names of the policies are those of the roles with the subject.
matching_policies_sound :
    (sub name : Text) (roles : List RbacRole)
    → Memᴰ name (matching_policies sub roles)
    → (role : RbacRole) × Memᴰ role roles
      × (role.definition.sub ≡ sub)
      × Memᴰ name role.definition.policies
unfolding matching_policies
matching_policies_sound sub name [] m = elim m [ ]
matching_policies_sound sub name (role ∷ roles) m =
    elim (Bool-cases (text_eq role.definition.sub sub)) [
      | inl same ↦
          elim (Mem-append_cases role.definition.policies (matching_policies sub roles)
            (rw same at m)) [
              | inl here ↦ (role, Memᴰ.head refl, (text_eq_iff _ _).0 same, here)
              | inr there ↦
                  let (r, held, e, named) = matching_policies_sound sub name roles there in
                  (r, Memᴰ.tail held, e, named)
            ]
      | inr other ↦
          let (r, held, e, named) = matching_policies_sound sub name roles (rw other at m) in
          (r, Memᴰ.tail held, e, named)
    ]

matching_policies_complete :
    (sub name : Text) (role : RbacRole) (roles : List RbacRole)
    → Memᴰ role roles
    → role.definition.sub ≡ sub
    → Memᴰ name role.definition.policies
    → Memᴰ name (matching_policies sub roles)
unfolding matching_policies
matching_policies_complete sub name role [] m e n = elim m [ ]
matching_policies_complete sub name role (r ∷ roles) (Memᴰ.head same) e n =
    let holds : text_eq r.definition.sub sub ≡ true =
      (text_eq_iff r.definition.sub sub).1 (rw (← same) e) in
    rw holds (Mem-append_left r.definition.policies (matching_policies sub roles) (rw (← same) n))
matching_policies_complete sub name role (r ∷ roles) (Memᴰ.tail m) e n =
    let rest = matching_policies_complete sub name role roles m e n in
    elim (Bool-cases (text_eq r.definition.sub sub)) [
      | inl same ↦
          rw same (Mem-append_right r.definition.policies (matching_policies sub roles) rest)
      | inr other ↦ rw other rest
    ]

-- Some name of the list allows the capability.
abbrev AnyAllows : RbacRecord → Text → Text → List Text → Type 0
AnyAllows rbac path capability names =
    (name : Text) × Memᴰ name names × Allows rbac path capability name

behind :
    {rbac : RbacRecord} {path capability : Text} (first : Text) (names : List Text)
    → AnyAllows rbac path capability names
    → AnyAllows rbac path capability (first ∷ names)
behind first names (name, m, a) = (name, Memᴰ.tail m, a)

-- A permission found in the list of names.
check_policies_sound :
    (rbac : RbacRecord) (sub path capability : Text) (denials names : List Text)
    → check_policies rbac sub path capability denials names ≡ ok tt
    → AnyAllows rbac path capability names
unfolding check_policies
check_policies_sound rbac sub path capability [] [] h = cc
check_policies_sound rbac sub path capability (d ∷ ds) [] h = cc
check_policies_sound rbac sub path capability denials (name ∷ names) h =
    elim (Option-cases (lookup name rbac.policies)) [
      | inl missing ↦
          behind name names
            (check_policies_sound rbac sub path capability denials names (ground arith))
      | inr (policy, declared) ↦ elim (Option-cases (find_matching_schema policy.schemas path)) [
        | inl uncovered ↦
            behind name names
              (check_policies_sound rbac sub path capability denials names (ground arith))
        | inr (schema, selected) ↦ elim (Bool-cases (includes schema.capability capability)) [
          | inl listed ↦ (
            name,
            Memᴰ.head refl,
            record {
              policy = policy;
              schema = schema;
              declared = declared;
              selected = selected;
              listed = Mem-includes schema.capability capability listed;
            },
          )
          | inr refused ↦ behind name names (
              check_policies_sound rbac sub path capability (denials ++ name ∷ []) names
                (ground arith))
        ]
      ]
    ]

check_policies_complete :
    (rbac : RbacRecord) (sub path capability name : Text) (denials names : List Text)
    → Memᴰ name names
    → Allows rbac path capability name
    → check_policies rbac sub path capability denials names ≡ ok tt
unfolding check_policies
check_policies_complete rbac sub path capability name denials [] m a = elim m [ ]
check_policies_complete rbac sub path capability name denials (other ∷ names) (Memᴰ.head e) a =
    let here : lookup other rbac.policies ≡ some a.policy = rw (← e) a.declared in
    let listed = includes-Mem a.schema.capability capability a.listed in
    let selected = a.selected in ground arith
check_policies_complete rbac sub path capability name denials (other ∷ names) (Memᴰ.tail m) a =
    let next = check_policies_complete rbac sub path capability name denials names m a in
    let refused =
      check_policies_complete rbac sub path capability name (denials ++ other ∷ []) names m a in
    ground arith

check_rbac_policy_sound :
    (rbac : RbacRecord) (sub path method : Text)
    → check_rbac_policy rbac sub path method ≡ ok tt
    → Permits rbac sub path method
unfolding check_rbac_policy
check_rbac_policy_sound rbac sub path method h = elim (Option-cases (capability_of method)) [
  | inl unsupported ↦ absurd (ground arith)
  | inr (capability, meaning) ↦
      let names = matching_policies sub (values rbac.roles) in
      let ran : check_policies rbac sub path capability [] names ≡ ok tt = ground arith in
      let (name, m, allows) = check_policies_sound rbac sub path capability [] names ran in
      let (role, held, subject, named) = matching_policies_sound sub name (values rbac.roles) m in
      record {
        capability = capability;
        meaning = meaning;
        role = role;
        held = held;
        subject = subject;
        name = name;
        named = named;
        allows = allows;
      }
]

check_rbac_policy_complete :
    (rbac : RbacRecord) (sub path method : Text)
    → Permits rbac sub path method
    → check_rbac_policy rbac sub path method ≡ ok tt
unfolding check_rbac_policy
check_rbac_policy_complete rbac sub path method p =
    let m =
      matching_policies_complete sub p.name p.role (values rbac.roles) p.held p.subject p.named in
    let ran =
      check_policies_complete rbac sub path p.capability p.name []
        (matching_policies sub (values rbac.roles)) m p.allows in
    let meaning = p.meaning in
    ground (arith, Mem-ne-nil (matching_policies sub (values rbac.roles)) m)

-- The check permits a request exactly when its method has a capability and some role of the
-- record with the subject names a policy of the record whose schema for the path lists it.
pub check_rbac_policy_iff :
    (rbac : RbacRecord) (sub path method : Text)
    → (check_rbac_policy rbac sub path method ≡ ok tt) ↔ Permits rbac sub path method
check_rbac_policy_iff rbac sub path method =
    (check_rbac_policy_sound rbac sub path method, check_rbac_policy_complete rbac sub path method)
