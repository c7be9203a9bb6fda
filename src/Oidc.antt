-- ===== src/Oidc.antt =====
-- src/typescript/lib/oidc-helper/mod.ts: audiences, subjects, and the validation of a token.
-- The JOSE library, the signing keys and the parser of query strings are the fields of `Jose`.
pub mod Validated
mod Tests
use compute_contract_referen.Base.{
  ℕ, ◌+◌, Bool, true, false, ◌||◌, Option, none, some, List, [], ◌∷◌, ◌++◌, ◌==◌, if◌then◌else◌,
  take, drop, length, Text, text_eq, codes, starts_with, index_of, split_on, includes, Result, ok,
  err, ◌>>=◌, Traced, and_then, pure,
}
use compute_contract_referen.Rbac.{
  AuthError, no_token, invalid_token, invalid_audience, failed_validation,
}
use compute_contract_referen.Rbac.Records.{unique_from}

pub record Payload : Type 0 where
  pub sub : Text

-- What `jose`, the fetch of an issuer's keys, and the configuration answer.
pub record Jose : Type 0 where
  -- `_getIssuerUrl()` and `_trustedIssuerUrls`
  pub issuer_url : Text
  pub trusted : List Text
  -- the first `aud` of `decodeJwt(token)`, not verified
  pub unverified_aud : Text → Option Text
  -- `new URLSearchParams(query).get("actx")`, `none` also for an empty value
  pub actx_param : Text → Option Text
  -- `jwtVerify(token, keys of the issuer, { issuer, audience })`, the fetch of the keys included
  pub verify : Text → Text → Text → Option Payload

pub record OidcToken : Type 0 where
  pub actx : Text
  pub api : Text
  pub aud : Text
  pub sub : Text
  pub as_string : Text

-- An outbound request.
pub data Request : Type 0 where
  openid_configuration : Text → Request
  did_document : Text → Request
  resolve_handle : Text → Request
  resolve_key : Text → Request
  list_records : Text → Text → Request

-- `subMatchesActx`
unfoldable pub sub_matches_actx : Option Text → Text → Bool
unfolding text_eq starts_with
sub_matches_actx none actx = false
sub_matches_actx (some sub) actx =
    if text_eq sub []
    then false
    else text_eq sub (codes "actx:" ++ actx)
      || starts_with sub (codes "actx:" ++ (actx ++ codes ":"))

abbrev pub audience_for : Text → Text → Text
audience_for api actx = codes "api://" ++ (api ++ (codes "?actx=" ++ actx))

module _ (jose : Jose) where
  -- The part behind "api://", which is not empty.
  audience_rest : Text → Result AuthError Text
  unfolding starts_with text_eq
  audience_rest aud =
      if starts_with aud (codes "api://")
      then (if text_eq (drop 6 aud) [] then err (invalid_audience aud) else ok (drop 6 aud))
      else err (invalid_audience aud)

  -- `parseAudience`: the actx and the api
  unfoldable pub parse_audience : Text → Result AuthError (Text × Text)
  unfolding audience_rest index_of
  parse_audience aud = do
    rest ← audience_rest aud
    elim (index_of rest (codes "?")) [
      | none ↦ err (invalid_audience aud)
      | some at ↦ elim (jose.actx_param (drop (at + 1) rest)) [
        | none ↦ err (invalid_audience aud)
        | some actx ↦ ok (actx, take at rest)
      ]
    ]

  -- The issuers of the list that are configured.
  unfoldable pub trusted_only : List Text → List Text
  unfolding includes
  trusted_only [] = []
  trusted_only (issuer ∷ issuers) =
      let rest = trusted_only issuers in
      if includes jose.trusted issuer then issuer ∷ rest else rest

  -- The requests that the check against one issuer makes: its own keys are at hand.
  key_requests : Text → List Request
  unfolding text_eq
  key_requests issuer =
      if text_eq issuer jose.issuer_url then [] else openid_configuration issuer ∷ []

  -- The loop over the issuers; what is thrown for one of them goes on to the next.
  unfoldable pub try_issuers :
      Text → Text → Text → Text → List Text → Traced Request AuthError OidcToken
  unfolding key_requests
  try_issuers token actx api aud [] = (err failed_validation, [])
  try_issuers token actx api aud (issuer ∷ issuers) =
      let next = try_issuers token actx api aud issuers in
      elim (jose.verify token issuer aud) [
        | some payload ↦ (
          ok (record { actx = actx; api = api; aud = aud; sub = payload.sub; as_string = token }),
          key_requests issuer,
        )
        | none ↦ (next.0, key_requests issuer ++ next.1)
      ]

  -- The candidates: the local issuer, and the configured ones among those that are given.
  unfoldable pub candidates : List Text → List Text
  unfolding trusted_only unique_from
  candidates given = unique_from [] (jose.issuer_url ∷ trusted_only given)

  -- The tests on the token's form, and its audience.
  unfoldable pub peek : Text → Result AuthError (Text × Text)
  unfolding text_eq split_on parse_audience
  peek token =
      if text_eq token [] || text_eq token (codes "0")
      then err no_token
      else if length (split_on b'.' token) == 3
      then elim (jose.unverified_aud token) [
        | none ↦ err invalid_token
        | some aud ↦ parse_audience aud
      ]
      else err invalid_token

  -- `OIDCToken.validate`, given the issuers that its callback returns.
  unfoldable pub validate : Text → List Text → Traced Request AuthError OidcToken
  unfolding peek candidates try_issuers
  validate token given =
      and_then (pure (peek token))
        λ (actx, api). try_issuers token actx api (audience_for api actx) (candidates given)
