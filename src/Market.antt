-- ===== src/Market.antt =====
-- The receivers of src/typescript/lib/market: the service-auth check of auth.ts, and the handlers
-- submitRfp and submitBid of server.ts. `verifyJwt`, the resolver of records and the check of inline
-- signatures are fields of `MarketServerDeps`; that a handler calls its callback is its result.
pub mod Handlers
pub mod Audiences
pub mod Verified
pub mod Authored
pub mod Contracts
pub mod Registry
pub mod Dispatched
mod Tests
use compute_contract_referen.Base.{
  ℕ, ◌+◌, Bool, true, false, ◌&&◌, ◌||◌, Option, none, some, List, [], ◌∷◌, ◌++◌, ◌==◌, leb,
  if◌then◌else◌, take, drop, Text, text_eq, codes, starts_with, index_of, split_on, Dict, lookup,
  put, Result, ok, err, ◌>>=◌,
}

pub record JwtPayload : Type 0 where
  pub aud : Option Text
  pub iss : Option Text

pub record ServiceAuthResult : Type 0 where
  pub issuer_did : Text
  pub audience : Text
  pub service_id : Option Text

pub record MarketServerDeps (R : Type 0) : Type 0 where
  pub hostname : Text
  pub audience_dids : List Text
  -- `verifyJwt(token, null, lxm, …)`
  pub verify_jwt : Text → Text → Option JwtPayload
  pub verify_signatures : Bool
  -- `verifyRecordSignatures` for a record and a repository's DID
  pub is_signed : R → Text → Bool
  -- `resolve({ uri, cid })`
  pub resolve : Text → Text → Option R
  -- the collection of the record's payload, if it has one
  pub payload_nsid : R → Option Text
  -- the $type of a record, if it has one
  pub record_type : R → Option Text

-- Why a request is refused.
pub data Refusal : Type 0 where
  invalid_json : Refusal
  missing_fields : Refusal
  malformed_bearer : Refusal
  unverified_token : Refusal
  unexpected_audience : Refusal
  missing_issuer : Refusal
  not_the_author : Refusal
  not_signed : Refusal
  unresolved_record : Refusal
  wrong_type : Refusal
  not_the_bidder : Refusal

-- White space and line ends, as they occur in a header.
is_space : ℕ → Bool
is_space c = leb 9 c && leb c 13 || c == 32 || c == 160

trim_start : Text → Text
unfolding is_space
trim_start [] = []
trim_start (c ∷ s) = let rest = trim_start s in if is_space c then rest else c ∷ s

trim_end : Text → Text
unfolding is_space
trim_end [] = []
trim_end (c ∷ s) = elim (trim_end s) [
  | [] ↦ if is_space c then [] else c ∷ []
  | d ∷ rest ↦ c ∷ d ∷ rest
]

one_line : Text → Bool
one_line [] = true
one_line (c ∷ s) = (if c == 10 || c == 13 then false else true) && one_line s

-- `extractBearer`
unfoldable pub extract_bearer : Option Text → Result Refusal Text
unfolding trim_start trim_end starts_with one_line text_eq
extract_bearer none = err malformed_bearer
extract_bearer (some header) =
    let trimmed = trim_start (trim_end header) in
    let token = drop 7 trimmed in
    if starts_with trimmed (codes "Bearer ") && one_line token
    then (if text_eq token [] then err malformed_bearer else ok token)
    else err malformed_bearer

-- `${did}#${id}`
abbrev pub service_ref : Text → Text → Text
service_ref did id = did ++ (codes "#" ++ id)

-- The inner loop: one ref for each service id.
unfoldable pub add_refs : Text → List Text → Dict (Option Text) → Dict (Option Text)
unfolding put
add_refs did [] d = d
add_refs did (id ∷ ids) d = add_refs did ids (put (service_ref did id) (some id) d)

-- The audiences that are accepted, with the service id of each.
unfoldable pub acceptable_audiences :
    List Text → List Text → Dict (Option Text) → Dict (Option Text)
unfolding put add_refs
acceptable_audiences [] ids d = d
acceptable_audiences (did ∷ dids) ids d =
    acceptable_audiences dids ids (add_refs did ids (put did none d))

-- `iss.split("#")[0]`, `split("/")[0]`
unfoldable pub before_char : ℕ → Text → Text
before_char c [] = []
before_char c (d ∷ s) = let rest = before_char c s in if d == c then [] else d ∷ rest

-- `serviceDidForHost`
abbrev pub service_did_for_host : Text → Text
service_did_for_host hostname = codes "did:web:" ++ hostname

-- The tests on a verified payload.
unfoldable pub check_payload : Dict (Option Text) → JwtPayload → Result Refusal ServiceAuthResult
unfolding lookup starts_with before_char
check_payload acceptable payload = elim payload.aud [
  | none ↦ err unexpected_audience
  | some aud ↦ elim (lookup aud acceptable) [
    | none ↦ err unexpected_audience
    | some service_id ↦ elim payload.iss [
      | none ↦ err missing_issuer
      | some iss ↦
          if starts_with iss (codes "did:")
          then ok (record {
            issuer_did = before_char b'#' iss;
            audience = aud;
            service_id = service_id;
          })
          else err missing_issuer
    ]
  ]
]

-- `atUriAuthority`
unfoldable pub at_uri_authority : Text → Text
unfolding index_of before_char
at_uri_authority uri = elim (index_of uri (codes "at://")) [
  | none ↦ before_char b'/' uri
  | some at ↦ before_char b'/' (take at uri ++ drop (at + 5) uri)
]

module _ {R : Type 0} (deps : MarketServerDeps R) where
  abbrev pub accepted_audiences : List Text → Dict (Option Text)
  accepted_audiences service_ids =
      acceptable_audiences (service_did_for_host deps.hostname ∷ deps.audience_dids) service_ids []

  -- `verifyMarketServiceAuth`
  unfoldable pub verify_market_service_auth :
      Option Text → Text → List Text → Result Refusal ServiceAuthResult
  unfolding extract_bearer acceptable_audiences check_payload
  verify_market_service_auth auth_header lxm service_ids = extract_bearer auth_header >>= λ token.
      elim (deps.verify_jwt token lxm) [
        | none ↦ err unverified_token
        | some payload ↦ check_payload (accepted_audiences service_ids) payload
      ]

  -- `authorize`
  unfoldable pub authorize :
      Option Text → Text → List Text → Text → Result Refusal ServiceAuthResult
  unfolding verify_market_service_auth at_uri_authority text_eq
  authorize auth_header lxm service_ids record_uri =
      verify_market_service_auth auth_header lxm service_ids >>= λ auth.
      if text_eq auth.issuer_did (at_uri_authority record_uri) then ok auth else err not_the_author

  -- `verifyAuthored`
  unfoldable pub verify_authored : R → Text → Result Refusal (Unit {0})
  unfolding at_uri_authority
  verify_authored value record_uri =
      if deps.verify_signatures
      then (if deps.is_signed value (at_uri_authority record_uri) then ok tt else err not_signed)
      else ok tt
