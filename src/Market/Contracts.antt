-- ===== src/Market/Contracts.antt =====
-- The handlers of submitAccept and submitEvent in src/typescript/lib/market/server.ts, up to their
-- callbacks. Whether the callback of an event is awaited or runs in the background is not modelled.
use compute_contract_referen.Base.{
  Bool, false, not, ◌&&◌, ◌||◌, Option, none, some, List, if◌then◌else◌, Text, text_eq, codes, Dict,
  [], Result, ok, err, ◌>>=◌,
}
use compute_contract_referen.Market.{
  MarketServerDeps, Refusal, invalid_json, missing_fields, wrong_type, authorize, verify_authored,
}
use compute_contract_referen.Market.Handlers.{
  SubmitContext, keys, bucket_id, choose_callback, or_empty, resolved,
}

-- The body of submitAccept, its fields empty where they are missing.
pub record AcceptBody : Type 0 where
  pub accept_uri : Text
  pub accept_cid : Text

-- The body of submitEvent, and whether its record has a receipt and a payload.
pub record EventBody : Type 0 where
  pub uri : Text
  pub cid : Text
  pub has_receipt : Bool
  pub has_payload : Bool

-- `SUBMIT_ACCEPT_LXM`, `SUBMIT_EVENT_LXM` and `EVENT_NSID`
abbrev pub submit_accept_lxm : Text
submit_accept_lxm = codes "com.publicdomainrelay.temp.market.submitAccept"

abbrev pub submit_event_lxm : Text
submit_event_lxm = codes "com.publicdomainrelay.temp.market.submitEvent"

abbrev pub event_nsid : Text
event_nsid = codes "com.publicdomainrelay.temp.market.event"

-- `event.$type && event.$type !== EVENT_NSID`
unfoldable pub is_other_type : Option Text → Bool
unfolding text_eq
is_other_type none = false
is_other_type (some type) = not (text_eq type []) && not (text_eq type event_nsid)

module _ {R : Type 0} (deps : MarketServerDeps R) where
  -- The request of submitAccept up to its callback.
  unfoldable pub submit_accept :
      List Text → Option Text → Option AcceptBody → Result Refusal (SubmitContext R)
  unfolding text_eq authorize resolved verify_authored
  submit_accept service_ids auth_header none = err invalid_json
  submit_accept service_ids auth_header (some body) =
      if text_eq body.accept_uri [] || text_eq body.accept_cid []
      then err missing_fields
      else (authorize deps auth_header submit_accept_lxm service_ids body.accept_uri >>= λ auth.
          resolved deps body.accept_uri body.accept_cid >>= λ accept.
          verify_authored deps accept body.accept_uri >>= λ _. ok (record {
            uri = body.accept_uri;
            cid = body.accept_cid;
            value = accept;
            issuer_did = auth.issuer_did;
          }))

  -- The request of submitEvent: the callback with what it is called with, or `none` where the event
  -- is ignored.
  unfoldable pub submit_event {ℓ} :
      {C : Type ℓ}
      → Dict (Dict C)
      → Option Text
      → Option EventBody
      → Result Refusal (Option (C × SubmitContext R))
  unfolding text_eq authorize resolved verify_authored is_other_type choose_callback
  submit_event callbacks auth_header none = err invalid_json
  submit_event callbacks auth_header (some body) =
      if text_eq body.uri [] || text_eq body.cid [] || not body.has_receipt || not body.has_payload
      then err missing_fields
      else (authorize deps auth_header submit_event_lxm (keys callbacks) body.uri >>= λ auth.
          resolved deps body.uri body.cid >>= λ event.
          if is_other_type (deps.record_type event)
          then err wrong_type
          else (verify_authored deps event body.uri >>= λ _.
              elim (choose_callback (bucket_id auth.service_id (keys callbacks))
                (or_empty (deps.payload_nsid event)) callbacks) [
                  | none ↦ ok none
                  | some callback ↦ ok (
                      some (
                        callback,
                        record {
                          uri = body.uri;
                          cid = body.cid;
                          value = event;
                          issuer_did = auth.issuer_did;
                        },
                      ))
                ]))
