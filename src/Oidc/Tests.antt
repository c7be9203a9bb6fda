-- ===== src/Oidc/Tests.antt =====
-- Concrete validations: two issuers are configured, and the second one's keys verify the token.
use compute_contract_referen.Base.{refl, none, some, [], ◌∷◌, text_eq, codes, All, if◌then◌else◌}
use compute_contract_referen.Oidc.{Jose, OidcToken, validate}
use compute_contract_referen.Oidc.Validated.{
  IsVerified, IsKeyRequest, validate_sound, validate_requests,
}

abbrev jose : Jose
jose = record {
  issuer_url = codes "own";
  trusted = codes "t" ∷ codes "u" ∷ [];
  unverified_aud = λ token. some (codes "api://D?actx=a");
  actx_param = λ query. some (codes "a");
  verify = λ token issuer aud.
      if text_eq issuer (codes "u") then some (record { sub = codes "actx:a" }) else none;
}

abbrev verified : OidcToken
verified = record {
  actx = codes "a";
  api = codes "D";
  aud = codes "api://D?actx=a";
  sub = codes "actx:a";
  as_string = codes "h.p.s";
}

validate_sound_example : IsVerified jose (codes "u" ∷ []) (codes "h.p.s") verified
unfolding validate
validate_sound_example = validate_sound jose (codes "h.p.s") (codes "u" ∷ []) verified refl

validate_requests_example :
    All (IsKeyRequest jose) (validate jose (codes "h.p.s") (codes "u" ∷ codes "x" ∷ [])).1
validate_requests_example = validate_requests jose (codes "h.p.s") (codes "u" ∷ codes "x" ∷ [])
