-- ===== src/Market/Tests.antt =====
-- A bid and an RFP whose tokens verify.
use compute_contract_referen.Base.{
  refl, ◌≡◌, ℕ, true, false, Option, none, some, List, [], ◌∷◌, Text, Dict, codes,
}
use compute_contract_referen.Market.{MarketServerDeps}
use compute_contract_referen.Market.Handlers.{
  SubmitContext, submit_bid_lxm, submit_rfp_lxm, keys, submit_bid, submit_rfp,
}
use compute_contract_referen.Market.Contracts.{submit_event_lxm, is_other_type, submit_event}
use compute_contract_referen.Market.Registry.{BidderBody, BidderContext}
use compute_contract_referen.Market.Dispatched.{submit_event-IsAuthored}
use compute_contract_referen.Market.Authored.{
  IsAuthored, submit_bid-IsAuthored, submit_rfp-IsAuthored,
}

abbrev deps : MarketServerDeps ℕ
deps = record {
  hostname = codes "h";
  audience_dids = [];
  verify_jwt = λ token lxm.
      some (record { aud = some (codes "did:web:h#m"); iss = some (codes "did:plc:a") });
  verify_signatures = true;
  is_signed = λ value did. true;
  resolve = λ uri cid. some 7;
  payload_nsid = λ value. some (codes "n");
  record_type = λ value. none;
}

abbrev uri : Text
uri = codes "at://did:plc:a/c/r"

abbrev ids : List Text
ids = codes "m" ∷ []

abbrev header : Option Text
header = some (codes "Bearer t")

abbrev callbacks : Dict (Dict ℕ)
callbacks = (codes "m", (codes "n", 1) ∷ []) ∷ []

abbrev submitted : SubmitContext ℕ
submitted = record { uri = uri; cid = codes "cid"; value = 7; issuer_did = codes "did:plc:a" }

submit_bid-IsAuthored_example : IsAuthored deps submit_bid_lxm ids header uri 7 (codes "did:plc:a")
unfolding submit_bid
submit_bid-IsAuthored_example =
    submit_bid-IsAuthored deps ids header
      (some (record { uri = uri; cid = codes "cid"; value = some 7 })) submitted refl

submit_rfp-IsAuthored_example :
    (deps.resolve uri (codes "cid") ≡ some 7)
    × IsAuthored deps submit_rfp_lxm (keys callbacks) header uri 7 (codes "did:plc:a")
unfolding submit_rfp
submit_rfp-IsAuthored_example =
    submit_rfp-IsAuthored deps callbacks header (record { rfp_uri = uri; rfp_cid = codes "cid" }) 1
      submitted refl

submit_event-IsAuthored_example :
    (deps.resolve uri (codes "cid") ≡ some 7)
    × (is_other_type (deps.record_type 7) ≡ false)
    × IsAuthored deps submit_event_lxm (keys callbacks) header uri 7 (codes "did:plc:a")
unfolding submit_event
submit_event-IsAuthored_example =
    submit_event-IsAuthored deps callbacks header
      (record { uri = uri; cid = codes "cid"; has_receipt = true; has_payload = true }) 1 submitted
      refl

-- The tokens of the registry's callers name its service id.
abbrev registry : MarketServerDeps ℕ
registry = record deps {
  verify_jwt = λ token lxm.
      some
        (record { aud = some (codes "did:web:h#pdr_temp_market"); iss = some (codes "did:plc:a") });
}

abbrev bidder : BidderBody
bidder = record { bidder_did = codes "did:plc:a"; applies_to = some [] }

abbrev registered : BidderContext
registered = record {
  bidder_did = codes "did:plc:a";
  applies_to = [];
  issuer_did = codes "did:plc:a";
}
