-- ===== src/Market/Handlers.antt =====
-- The handlers of submitRfp and submitBid in src/typescript/lib/market/server.ts. A handler's result is
-- what it hands to its callback, or the refusal that it answers.
use compute_contract_referen.Base.{
  ◌||◌, Option, none, some, List, [], ◌∷◌, if◌then◌else◌, Text, text_eq, codes, Dict, lookup,
  Result, ok, err, ◌>>=◌,
}
use compute_contract_referen.Market.{
  MarketServerDeps, Refusal, invalid_json, missing_fields, unresolved_record, authorize,
  verify_authored,
}

-- The body of submitRfp, its fields empty where they are missing.
pub record RfpBody : Type 0 where
  pub rfp_uri : Text
  pub rfp_cid : Text

pub record BidBody (R : Type 0) : Type 0 where
  pub uri : Text
  pub cid : Text
  pub value : Option R

pub record SubmitContext (R : Type 0) : Type 0 where
  pub uri : Text
  pub cid : Text
  pub value : R
  pub issuer_did : Text

-- `SUBMIT_RFP_LXM` and `SUBMIT_BID_LXM`
abbrev pub submit_rfp_lxm : Text
submit_rfp_lxm = codes "com.publicdomainrelay.temp.market.submitRfp"

abbrev pub submit_bid_lxm : Text
submit_bid_lxm = codes "com.publicdomainrelay.temp.market.submitBid"

-- `Object.keys`
abbrev pub keys {ℓ} : {V : Type ℓ} → Dict V → List Text
keys [] = []
keys ((k, v) ∷ d) = k ∷ keys d

-- `auth.serviceId ?? (serviceIds.length === 1 ? serviceIds[0] : undefined)`
abbrev pub bucket_id : Option Text → List Text → Option Text
bucket_id (some id) ids = some id
bucket_id none [] = none
bucket_id none (id ∷ []) = some id
bucket_id none (id ∷ other ∷ ids) = none

-- `bucketId ? callbacks[bucketId]?.[payloadNsid] : undefined`
unfoldable pub choose_callback {ℓ} : {C : Type ℓ} → Option Text → Text → Dict (Dict C) → Option C
unfolding lookup text_eq
choose_callback none nsid callbacks = none
choose_callback (some id) nsid callbacks =
    if text_eq id []
    then none
    else elim (lookup id callbacks) [ none ↦ none | some bucket ↦ lookup nsid bucket ]

abbrev pub or_empty : Option Text → Text
or_empty none = []
or_empty (some nsid) = nsid

module _ {R : Type 0} (deps : MarketServerDeps R) where
  -- The request of submitBid up to its callback.
  unfoldable pub submit_bid :
      List Text → Option Text → Option (BidBody R) → Result Refusal (SubmitContext R)
  unfolding text_eq authorize verify_authored
  submit_bid service_ids auth_header none = err invalid_json
  submit_bid service_ids auth_header (some body) = elim body.value [
    | none ↦ err missing_fields
    | some value ↦
        if text_eq body.uri [] || text_eq body.cid []
        then err missing_fields
        else (authorize deps auth_header submit_bid_lxm service_ids body.uri >>= λ auth.
            verify_authored deps value body.uri >>= λ _. ok (record {
              uri = body.uri;
              cid = body.cid;
              value = value;
              issuer_did = auth.issuer_did;
            }))
  ]

  -- `resolve`, which throws where the record is not found
  unfoldable pub resolved : Text → Text → Result Refusal R
  resolved uri cid = elim (deps.resolve uri cid) [ none ↦ err unresolved_record | some r ↦ ok r ]

  -- The request of submitRfp: the callback with what it is called with, or `none` where the RFP is
  -- ignored.
  unfoldable pub submit_rfp {ℓ} :
      {C : Type ℓ}
      → Dict (Dict C)
      → Option Text
      → Option RfpBody
      → Result Refusal (Option (C × SubmitContext R))
  unfolding text_eq authorize verify_authored resolved choose_callback
  submit_rfp callbacks auth_header none = err invalid_json
  submit_rfp callbacks auth_header (some body) =
      if text_eq body.rfp_uri [] || text_eq body.rfp_cid []
      then err missing_fields
      else (authorize deps auth_header submit_rfp_lxm (keys callbacks) body.rfp_uri >>= λ auth.
          resolved body.rfp_uri body.rfp_cid >>= λ rfp.
          verify_authored deps rfp body.rfp_uri >>= λ _.
          elim (choose_callback (bucket_id auth.service_id (keys callbacks))
            (or_empty (deps.payload_nsid rfp)) callbacks) [
              | none ↦ ok none
              | some callback ↦ ok (
                  some (
                    callback,
                    record {
                      uri = body.rfp_uri;
                      cid = body.rfp_cid;
                      value = rfp;
                      issuer_did = auth.issuer_did;
                    },
                  ))
            ])
