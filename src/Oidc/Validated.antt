-- ===== src/Oidc/Validated.antt =====
-- What a validated token has been checked against, and the requests that validation makes.
use compute_contract_referen.Base.{
  arith, Mem-snoc, ap, subst, refl, sym, ◌≡◌, ◌⊎◌, inl, inr, Bool-cases, Option-cases, some, List,
  [], ◌∷◌, ◌++◌, Memᴰ, All, All-append, Text, text_eq, text_eq_iff, includes, Mem-includes, ok,
  and_then_ok, and_then-All, pure,
}
use compute_contract_referen.Rbac.Records.{unique_from}
use compute_contract_referen.Oidc.{
  Payload, Jose, OidcToken, Request, openid_configuration, audience_for, trusted_only, key_requests,
  try_issuers, candidates, peek, validate,
}

module _ {ℓ} {A : Type ℓ} {x a : A} where
  behind_item :
      {seen items : List A} → Memᴰ a seen ⊎ Memᴰ a items → Memᴰ a seen ⊎ Memᴰ a (x ∷ items)
  behind_item (inl m) = inl m
  behind_item (inr m) = inr (Memᴰ.tail m)

  at_end :
      (seen : List A) {items : List A}
      → Memᴰ a (seen ++ x ∷ []) ⊎ Memᴰ a items
      → Memᴰ a seen ⊎ Memᴰ a (x ∷ items)
  at_end seen (inl m) = elim (Mem-snoc seen m) [ inl here ↦ inl here | inr e ↦ inr (Memᴰ.head e) ]
  at_end seen (inr m) = inr (Memᴰ.tail m)

unique_from_Mem :
    (seen items : List Text) {t : Text}
    → Memᴰ t (unique_from seen items)
    → Memᴰ t seen ⊎ Memᴰ t items
unfolding unique_from
unique_from_Mem seen [] m = inl m
unique_from_Mem seen (item ∷ items) m = elim (Bool-cases (includes seen item)) [
  | inl old ↦ behind_item (unique_from_Mem seen items (rw old at m))
  | inr new ↦ at_end seen (unique_from_Mem (seen ++ item ∷ []) items (rw new at m))
]

module _ (jose : Jose) where
  kept_issuer :
      (given : List Text) (issuer : Text) {t : Text} {kept : List Text}
      → Memᴰ issuer jose.trusted
      → Memᴰ t (issuer ∷ kept)
      → (Memᴰ t kept → Memᴰ t given × Memᴰ t jose.trusted)
      → Memᴰ t (issuer ∷ given) × Memᴰ t jose.trusted
  kept_issuer given issuer trusted (Memᴰ.head e) ih = (Memᴰ.head e, rw e trusted)
  kept_issuer given issuer trusted (Memᴰ.tail m) ih = let (g, t) = ih m in (Memᴰ.tail g, t)

  trusted_only_Mem :
      (given : List Text) {t : Text}
      → Memᴰ t (trusted_only jose given)
      → Memᴰ t given × Memᴰ t jose.trusted
  unfolding trusted_only
  trusted_only_Mem [] m = elim m [ ]
  trusted_only_Mem (issuer ∷ given) m = elim (Bool-cases (includes jose.trusted issuer)) [
    | inl trusted ↦
        kept_issuer given issuer (Mem-includes jose.trusted issuer trusted) (rw trusted at m)
          (λ n. trusted_only_Mem given n)
    | inr other ↦ let (g, t) = trusted_only_Mem given (rw other at m) in (Memᴰ.tail g, t)
  ]

  -- The local issuer, or a configured one among those that are given.
  abbrev pub IsCandidate : List Text → Text → Type 0
  IsCandidate given issuer =
      (issuer ≡ jose.issuer_url) ⊎ (Memᴰ issuer given × Memᴰ issuer jose.trusted)

  candidates_sound :
      (given : List Text) (issuer : Text)
      → Memᴰ issuer (candidates jose given)
      → IsCandidate given issuer
  unfolding candidates
  candidates_sound given issuer m =
      elim (unique_from_Mem [] (jose.issuer_url ∷ trusted_only jose given) m) [
        | inl nothing ↦ elim nothing [ ]
        | inr (Memᴰ.head e) ↦ inl e
        | inr (Memᴰ.tail n) ↦ inr (trusted_only_Mem given n)
      ]

  -- The token verifies against a candidate's keys for its own audience, with the subject that it has.
  pub record IsVerified (given : List Text) (token : Text) (t : OidcToken) : Type 0 where
    pub issuer : Text
    pub candidate : IsCandidate given issuer
    pub payload : Payload
    pub verified : jose.verify token issuer (audience_for t.api t.actx) ≡ some payload
    pub subject : t.sub ≡ payload.sub

  -- A request for the keys of a configured issuer.
  abbrev pub IsKeyRequest : Request → Type 0
  IsKeyRequest r = (issuer : Text) × (r ≡ openid_configuration issuer) × Memᴰ issuer jose.trusted

  trusted_side :
      {given : List Text} {issuer : Text}
      → IsCandidate given issuer
      → (issuer ≡ jose.issuer_url) ⊎ Memᴰ issuer jose.trusted
  trusted_side (inl own) = inl own
  trusted_side (inr (g, trusted)) = inr trusted

  key_requests_trusted :
      (issuer : Text)
      → (issuer ≡ jose.issuer_url) ⊎ Memᴰ issuer jose.trusted
      → All IsKeyRequest (key_requests jose issuer)
  unfolding key_requests
  key_requests_trusted issuer side = elim (Bool-cases (text_eq issuer jose.issuer_url)) [
    | inl own ↦ rw own tt
    | inr other ↦ elim side [
      | inl same ↦ absurd (ground (arith, text_eq_iff issuer jose.issuer_url))
      | inr trusted ↦ rw other ((issuer, refl, trusted), tt)
    ]
  ]

  module _ (token actx api aud : Text) where
    try_issuers_sound :
        (issuers : List Text) (t : OidcToken)
        → (try_issuers jose token actx api aud issuers).0 ≡ ok t
        → (issuer : Text) × (payload : Payload) × Memᴰ issuer issuers
          × (jose.verify token issuer aud ≡ some payload)
          × (t ≡ record { actx = actx; api = api; aud = aud; sub = payload.sub; as_string = token })
    unfolding try_issuers
    try_issuers_sound [] t h = cc
    try_issuers_sound (issuer ∷ issuers) t h = elim (Option-cases (jose.verify token issuer aud)) [
      | inr (payload, v) ↦ (issuer, payload, Memᴰ.head refl, v, ground arith)
      | inl failed ↦
          let (i, p, m, v, e) = try_issuers_sound issuers t (ground arith) in
          (i, p, Memᴰ.tail m, v, e)
    ]

    try_issuers_requests :
        (issuers : List Text)
        → ((issuer : Text)
            → Memᴰ issuer issuers
            → (issuer ≡ jose.issuer_url) ⊎ Memᴰ issuer jose.trusted)
        → All IsKeyRequest (try_issuers jose token actx api aud issuers).1
    unfolding try_issuers
    try_issuers_requests [] h = tt
    try_issuers_requests (issuer ∷ issuers) h =
        let here = key_requests_trusted issuer (h issuer (Memᴰ.head refl)) in
        let rest = try_issuers_requests issuers (λ i m. h i (Memᴰ.tail m)) in
        elim (Option-cases (jose.verify token issuer aud)) [
          | inr (payload, v) ↦
              let made : (try_issuers jose token actx api aud (issuer ∷ issuers)).1
                  ≡ key_requests jose issuer =
                ground arith in
              subst (All IsKeyRequest) (sym made) here
          | inl failed ↦
              let later = (try_issuers jose token actx api aud issuers).1 in
              let made : (try_issuers jose token actx api aud (issuer ∷ issuers)).1
                  ≡ key_requests jose issuer ++ later =
                ground arith in
              subst (All IsKeyRequest) (sym made)
                (All-append IsKeyRequest (key_requests jose issuer) later here rest)
        ]

  -- A token that validates verifies against the local issuer, or against a configured one that the
  -- callback returned, for the audience that the token names.
  pub validate_sound :
      (token : Text) (given : List Text) (t : OidcToken)
      → (validate jose token given).0 ≡ ok t
      → IsVerified given token t
  unfolding validate
  validate_sound token given t h =
      let ((actx, api), peeked, tried) = and_then_ok (pure (peek jose token)) _ t h in
      let (issuer, payload, m, v, e) =
        try_issuers_sound token actx api (audience_for api actx) (candidates jose given) t tried in
      record {
        issuer = issuer;
        candidate = candidates_sound given issuer m;
        payload = payload;
        verified =
            subst
              (λ (u : OidcToken).
                jose.verify token issuer (audience_for u.api u.actx) ≡ some payload)
              (sym e) v;
        subject = ap (λ (u : OidcToken). u.sub) e;
      }

  -- Validation requests nothing but the keys of configured issuers.
  pub validate_requests :
      (token : Text) (given : List Text) → All IsKeyRequest (validate jose token given).1
  unfolding validate
  validate_requests token given =
      and_then-All IsKeyRequest (pure (peek jose token)) _ tt λ (actx, api) e.
        try_issuers_requests token actx api (audience_for api actx) (candidates jose given)
          λ issuer m. trusted_side (candidates_sound given issuer m)
