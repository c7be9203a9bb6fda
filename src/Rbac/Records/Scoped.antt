-- ===== src/Rbac/Records/Scoped.antt =====
-- The records behind what `getRBACRecord` and `getServiceAllowlist` join.
use compute_contract_referen.Base.{
  arith, refl, ap, ◌∙◌, ◌≡◌, ◌⊎◌, ℕ, Bool, true, Bool-cases, inl, inr, List, [], ◌∷◌, if◌then◌else◌,
  Memᴰ, Text, text_eq, text_eq_iff, includes, Mem-includes, Dict, put, values, Result, ok, err,
}
use compute_contract_referen.Rbac.{
  RbacPolicy, RbacRole, RbacRecord, ServiceAllowlistRecord, AuthError,
}
use compute_contract_referen.Rbac.Records.{
  Response, Collected, protects_this, put_all, add_all, add_allowlist, list_pages, finish_pages,
  finish, no_allowlist, get_service_allowlist, any_includes, check_allowed_to_use_service,
}
use compute_contract_referen.Rbac.Records.Pages.{Lists, list_pages_sound}

abbrev SameEntry {ℓ} : {V : Type ℓ} → Text → V → Text → V → Type ℓ
SameEntry {V} name v k w = ◌≡◌ {A = Text × V} (name, v) (k, w)

module _ {ℓ} {V : Type ℓ} {j k name : Text} {u w v : V} {joined : Dict V} where
  head_or_tail :
      Memᴰ (name, v) ((j, w) ∷ joined)
      → j ≡ k
      → SameEntry name v k w ⊎ Memᴰ (name, v) ((j, u) ∷ joined)
  head_or_tail (Memᴰ.head e) same = inl (e ∙ ap (λ i. (i, w)) same)
  head_or_tail (Memᴰ.tail m) same = inr (Memᴰ.tail m)

  kept :
      Memᴰ (name, v) ((j, u) ∷ put k w joined)
      → (Memᴰ (name, v) (put k w joined) → SameEntry name v k w ⊎ Memᴰ (name, v) joined)
      → SameEntry name v k w ⊎ Memᴰ (name, v) ((j, u) ∷ joined)
  kept (Memᴰ.head e) ih = inr (Memᴰ.head e)
  kept (Memᴰ.tail m) ih = elim (ih m) [ inl e ↦ inl e | inr n ↦ inr (Memᴰ.tail n) ]

Mem-put {ℓ} :
    {V : Type ℓ} (k : Text) (w : V) (joined : Dict V) {name : Text} {v : V}
    → Memᴰ (name, v) (put k w joined)
    → SameEntry name v k w ⊎ Memᴰ (name, v) joined
unfolding put
Mem-put k w [] (Memᴰ.head e) = inl e
Mem-put k w [] (Memᴰ.tail m) = elim m [ ]
Mem-put k w ((j, u) ∷ joined) m = elim (Bool-cases (text_eq j k)) [
  | inl same ↦ head_or_tail (rw same at m) ((text_eq_iff j k).0 same)
  | inr other ↦ kept (rw other at m) (λ m'. Mem-put k w joined m')
]

Mem-put_all {ℓ} :
    {V : Type ℓ} (joined entries : Dict V) {name : Text} {v : V}
    → Memᴰ (name, v) (put_all joined entries)
    → Memᴰ (name, v) entries ⊎ Memᴰ (name, v) joined
unfolding put_all
Mem-put_all joined [] m = inr m
Mem-put_all joined ((k, w) ∷ entries) m = elim (Mem-put_all (put k w joined) entries m) [
  | inl later ↦ inl (Memᴰ.tail later)
  | inr here ↦ elim (Mem-put k w joined here) [
    | inl e ↦ inl (Memᴰ.head e)
    | inr before ↦ inr before
  ]
]

-- A record of the list protects what is asked for, and has the entry.
pub record Declares {R V : Type 0} (protecting : R → Bool) (entries : R → Dict V) (records : List R)
    (name : Text) (v : V) : Type 0 where
  pub source : R
  pub listed : Memᴰ source records
  pub protects : protecting source ≡ true
  pub declared : Memᴰ (name, v) (entries source)

-- Both record kinds are joined in one way: the entries of the protecting records, put in order.
module _ {R J V : Type 0} (protecting : R → Bool) (entries : R → Dict V) (held : J → Dict V)
    (add : Collected J → R → Collected J)
    (adds : (c : Collected J) (r : R)
      → held (add c r).joined
        ≡ (if protecting r then put_all (held c.joined) (entries r) else held c.joined)) where
  Declares-cons :
      (records : List R) (name : Text) (v : V) (first : R)
      → Declares protecting entries records name v
      → Declares protecting entries (first ∷ records) name v
  Declares-cons records name v first d = record {
    source = d.source;
    listed = Memᴰ.tail d.listed;
    protects = d.protects;
    declared = d.declared;
  }

  Declares-here :
      (records : List R) (name : Text) (v : V) (r : R)
      → protecting r ≡ true
      → Memᴰ (name, v) (entries r)
      → Declares protecting entries (r ∷ records) name v
  Declares-here records name v r p m = record {
    source = r;
    listed = Memᴰ.head refl;
    protects = p;
    declared = m;
  }

  pub Mem-add_all :
      (c : Collected J) (records : List R) (name : Text) (v : V)
      → Memᴰ (name, v) (held (add_all add c records).joined)
      → Declares protecting entries records name v ⊎ Memᴰ (name, v) (held c.joined)
  unfolding add_all
  Mem-add_all c [] name v h = inr h
  Mem-add_all c (r ∷ records) name v h = elim (Mem-add_all (add c r) records name v h) [
    | inl later ↦ inl (Declares-cons records name v r later)
    | inr here ↦ elim (Bool-cases (protecting r)) [
      | inl p ↦ elim (Mem-put_all (held c.joined) (entries r) (rw (adds c r, p) at here)) [
        | inl declared ↦ inl (Declares-here records name v r p declared)
        | inr before ↦ inr before
      ]
      | inr passed ↦ inr (rw (adds c r, passed) at here)
    ]
  ]

finish_pages_ok {ℓ} :
    {J : Type ℓ} (did : Text) (any_protects : Bool) (total : ℕ) (joined result : J)
    → finish_pages did any_protects total joined ≡ ok result
    → joined ≡ result
unfolding finish_pages
finish_pages_ok did any_protects total joined result h = ground arith

finish_ok :
    {J : Type 0} (did : Text) (m : Result AuthError (Collected J)) (result : J)
    → finish did m ≡ ok result
    → (c : Collected J) × (m ≡ ok c) × (c.joined ≡ result)
finish_ok did (ok c) result h =
    (c, refl, finish_pages_ok did c.any_protects c.total c.joined result h)
finish_ok did (err e) result h = cc

any_includes_Mem :
    (d : Dict (List Text)) (iss : Text)
    → any_includes (values d) iss ≡ true
    → (name : Text) × (dids : List Text) × Memᴰ (name, dids) d × Memᴰ iss dids
unfolding any_includes
any_includes_Mem [] iss h = cc
any_includes_Mem ((name, dids) ∷ d) iss h = elim (Bool-cases (includes dids iss)) [
  | inl here ↦ (name, dids, Memᴰ.head refl, Mem-includes dids iss here)
  | inr other ↦
      let (n, ds, m, i) = any_includes_Mem d iss (rw other at h) in (n, ds, Memᴰ.tail m, i)
]

module _ (service scope : Text) where
  abbrev pub rbac_protects : RbacRecord → Bool
  rbac_protects r = protects_this service scope (values r.protects)

  abbrev pub allowlist_protects : ServiceAllowlistRecord → Bool
  allowlist_protects r = protects_this service scope (values r.protects)

  allowed-add :
      (c : Collected ServiceAllowlistRecord) (r : ServiceAllowlistRecord)
      → (add_allowlist service scope c r).joined.allowed
        ≡ (if allowlist_protects r then put_all c.joined.allowed r.allowed else c.joined.allowed)
  unfolding add_allowlist
  allowed-add c r = ground arith

  -- Every role and every policy of the record comes from a listed record that protects the service
  -- and the scope.
  pub record IsScoped (fetch : Text → Response RbacRecord) (rbac : RbacRecord) : Type 0 where
    pub records : List RbacRecord
    pub pages : ℕ
    pub lists : Lists fetch [] records pages
    pub roles :
        (name : Text) (role : RbacRole)
        → Memᴰ (name, role) rbac.roles
        → Declares rbac_protects (λ r. r.roles) records name role
    pub policies :
        (name : Text) (policy : RbacPolicy)
        → Memᴰ (name, policy) rbac.policies
        → Declares rbac_protects (λ r. r.policies) records name policy

  -- An issuer that the joined allowlist admits is in a list of a listed record which protects the
  -- service and the scope.
  pub allowlist_scoped :
      (fetch : Text → Response ServiceAllowlistRecord) (fuel : ℕ) (did iss : Text)
      (allowlist : ServiceAllowlistRecord)
      → get_service_allowlist fetch fuel did service scope ≡ ok allowlist
      → check_allowed_to_use_service allowlist iss ≡ ok tt
      → (records : List ServiceAllowlistRecord) × (n : ℕ) × Lists fetch [] records n
        × ((name : Text) × (dids : List Text) × Declares allowlist_protects
              (λ r. r.allowed)
              records
              name
              dids
            × Memᴰ iss dids)
  unfolding get_service_allowlist check_allowed_to_use_service
  allowlist_scoped fetch fuel did iss allowlist h k =
      let add = add_allowlist service scope in
      let (c, ran, same) =
        finish_ok did (list_pages add did fetch fuel [] no_allowlist) allowlist h in
      let (records, n, lists, all) = list_pages_sound add did fetch fuel [] no_allowlist c ran in
      let joined : (add_all add no_allowlist records).joined ≡ allowlist = rw (← all) same in
      let admitted : any_includes (values allowlist.allowed) iss ≡ true = ground arith in
      let (name, dids, m, i) = any_includes_Mem allowlist.allowed iss admitted in
      elim (Mem-add_all allowlist_protects (λ r. r.allowed) (λ j. j.allowed) add allowed-add
        no_allowlist records name dids (rw joined m)) [
          | inl declared ↦ (records, n, lists, (name, dids, declared, i))
          | inr nothing ↦ elim nothing [ ]
        ]
