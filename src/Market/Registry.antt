-- ===== src/Market/Registry.antt =====
-- The handlers of registerBidder and listBidders in src/typescript/lib/market/registry.ts, up to their
-- callbacks. They accept the service's own DID alone as an audience.
use compute_contract_referen.Base.{
  Option, none, some, List, [], ◌∷◌, if◌then◌else◌, Text, text_eq, codes, Result, ok, err, ◌>>=◌,
}
use compute_contract_referen.Market.{
  MarketServerDeps, Refusal, invalid_json, missing_fields, not_the_bidder,
  verify_market_service_auth,
}

-- The body of registerBidder: `bidder_did` is empty where it is missing.
pub record BidderBody : Type 0 where
  pub bidder_did : Text
  pub applies_to : Option (List Text)

pub record BidderContext : Type 0 where
  pub bidder_did : Text
  pub applies_to : List Text
  pub issuer_did : Text

pub record ListContext : Type 0 where
  pub payload_nsid : Option Text
  pub max_results : Option Text
  pub cursor : Option Text

abbrev pub register_bidder_nsid : Text
register_bidder_nsid = codes "com.publicdomainrelay.temp.market.registerBidder"

abbrev pub list_bidders_nsid : Text
list_bidders_nsid = codes "com.publicdomainrelay.temp.market.listBidders"

-- The service ids of the registry.
abbrev pub registry_ids : List Text
registry_ids = codes "pdr_temp_market" ∷ []

module _ {R : Type 0} (deps : MarketServerDeps R) where
  -- No `extraAudienceDids` are passed on.
  abbrev pub own_audience : MarketServerDeps R
  own_audience = record deps { audience_dids = [] }

  -- The request of registerBidder up to its callback.
  unfoldable pub register_bidder : Option Text → Option BidderBody → Result Refusal BidderContext
  unfolding text_eq verify_market_service_auth
  register_bidder auth_header none = err invalid_json
  register_bidder auth_header (some body) = elim body.applies_to [
    | none ↦ err missing_fields
    | some applies_to ↦
        if text_eq body.bidder_did []
        then err missing_fields
        else (verify_market_service_auth own_audience auth_header register_bidder_nsid registry_ids
            >>= λ auth.
                if text_eq auth.issuer_did body.bidder_did
                then ok (record {
                  bidder_did = body.bidder_did;
                  applies_to = applies_to;
                  issuer_did = auth.issuer_did;
                })
                else err not_the_bidder)
  ]

  -- The request of listBidders up to its callback: any issuer may list.
  unfoldable pub list_bidders : Option Text → ListContext → Result Refusal ListContext
  unfolding verify_market_service_auth
  list_bidders auth_header query =
      verify_market_service_auth own_audience auth_header list_bidders_nsid registry_ids >>= λ auth.
      ok query
