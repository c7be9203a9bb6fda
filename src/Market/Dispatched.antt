-- ===== src/Market/Dispatched.antt =====
-- The accepts, events and bidders for which a handler of the market calls its callback.
use compute_contract_referen.Base.{
  arith, subst, ◌≡◌, inl, inr, false, ◌||◌, Bool-cases, Option, Option-cases, some, List, [], Text,
  text_eq, text_eq_iff, Dict, ok, Result-cases,
}
use compute_contract_referen.Market.{
  MarketServerDeps, ServiceAuthResult, authorize, verify_authored, verify_market_service_auth,
}
use compute_contract_referen.Market.Verified.{IsVerified, verify_market_service_auth-IsVerified}
use compute_contract_referen.Market.Authored.{IsAuthored, authored}
use compute_contract_referen.Market.Handlers.{
  SubmitContext, keys, choose_callback, bucket_id, or_empty, resolved,
}
use compute_contract_referen.Market.Contracts.{
  AcceptBody, EventBody, submit_accept_lxm, submit_event_lxm, is_other_type, submit_accept,
  submit_event,
}
use compute_contract_referen.Market.Registry.{
  BidderBody, BidderContext, register_bidder_nsid, registry_ids, own_audience, register_bidder,
}

module _ {R : Type 0} (deps : MarketServerDeps R) where
  -- Where submitAccept calls its callback, the accept is what its URI and CID resolve to, a bearer
  -- token verified for the method and this service, its issuer is the author of the accept's URI, and
  -- the accept is signed by that author unless signatures are not asked for.
  pub submit_accept-IsAuthored :
      (ids : List Text) (auth_header : Option Text) (body : AcceptBody) (ctx : SubmitContext R)
      → submit_accept deps ids auth_header (some body) ≡ ok ctx
      → (deps.resolve body.accept_uri body.accept_cid ≡ some ctx.value)
        × IsAuthored deps submit_accept_lxm ids auth_header body.accept_uri ctx.value ctx.issuer_did
  unfolding submit_accept resolved
  submit_accept-IsAuthored ids auth_header body ctx h =
      elim (Bool-cases (text_eq body.accept_uri [] || text_eq body.accept_cid [])) [
        | inl empty ↦ absurd (ground arith)
        | inr full ↦
            elim (Result-cases (authorize deps auth_header submit_accept_lxm ids body.accept_uri)) [
              | inl (x, bad) ↦ absurd (ground arith)
              | inr (auth, a) ↦ elim (Option-cases (deps.resolve body.accept_uri body.accept_cid)) [
                | inl lost ↦ absurd (ground arith)
                | inr (accept, found) ↦
                    elim (Result-cases (verify_authored deps accept body.accept_uri)) [
                      | inl (x, bad) ↦ absurd (ground arith)
                      | inr (_, v) ↦
                          let who : auth.issuer_did ≡ ctx.issuer_did = ground arith in
                          let what : accept ≡ ctx.value = ground arith in
                          rw (← who, ← what)
                            (
                              found,
                              authored deps submit_accept_lxm ids auth_header body.accept_uri accept
                                  auth a v,
                            )
                    ]
              ]
            ]
      ]

  event-IsAuthored :
      {C : Type 0} (callbacks : Dict (Dict C)) (auth_header : Option Text) (body : EventBody)
      (callback : C) (ctx : SubmitContext R) (auth : ServiceAuthResult) (event : R)
      → authorize deps auth_header submit_event_lxm (keys callbacks) body.uri ≡ ok auth
      → deps.resolve body.uri body.cid ≡ some event
      → submit_event deps callbacks auth_header (some body) ≡ ok (some (callback, ctx))
      → (event ≡ ctx.value)
        × (is_other_type (deps.record_type event) ≡ false)
        × IsAuthored deps submit_event_lxm
            (keys callbacks)
            auth_header
            body.uri
            event
            ctx.issuer_did
  unfolding submit_event resolved
  event-IsAuthored callbacks auth_header body callback ctx auth event a found h =
      elim (Bool-cases (is_other_type (deps.record_type event))) [
        | inl wrong ↦ absurd (ground arith)
        | inr right ↦ elim (Result-cases (verify_authored deps event body.uri)) [
          | inl (x, bad) ↦ absurd (ground arith)
          | inr (_, v) ↦
              elim (Option-cases (
                choose_callback (bucket_id auth.service_id (keys callbacks))
                  (or_empty (deps.payload_nsid event)) callbacks)) [
                    | inl ignored ↦ absurd (ground arith)
                    | inr (chosen, e) ↦
                        let who : auth.issuer_did ≡ ctx.issuer_did = ground arith in
                        (
                          ground arith,
                          right,
                          rw (← who) (
                              authored deps submit_event_lxm (keys callbacks) auth_header body.uri
                                event auth a v),
                        )
                  ]
        ]
      ]

  -- Where submitEvent calls a callback, the event is what its URI and CID resolve to and is of no other
  -- type, a bearer token verified for the method and this service under one of the keys of the
  -- callbacks if it names any, its issuer is the author of the event's URI, and the event is signed
  -- by that author unless signatures are not asked for.
  pub submit_event-IsAuthored :
      {C : Type 0} (callbacks : Dict (Dict C)) (auth_header : Option Text) (body : EventBody)
      (callback : C) (ctx : SubmitContext R)
      → submit_event deps callbacks auth_header (some body) ≡ ok (some (callback, ctx))
      → (deps.resolve body.uri body.cid ≡ some ctx.value)
        × (is_other_type (deps.record_type ctx.value) ≡ false)
        × IsAuthored deps submit_event_lxm
            (keys callbacks)
            auth_header
            body.uri
            ctx.value
            ctx.issuer_did
  unfolding submit_event resolved
  submit_event-IsAuthored callbacks auth_header body callback ctx h =
      elim (Result-cases (authorize deps auth_header submit_event_lxm (keys callbacks) body.uri)) [
        | inl (x, bad) ↦ absurd (ground arith)
        | inr (auth, a) ↦ elim (Option-cases (deps.resolve body.uri body.cid)) [
          | inl lost ↦ absurd (ground arith)
          | inr (event, found) ↦
              let (what, right, by_author) =
                event-IsAuthored callbacks auth_header body callback ctx auth event a found h in
              rw (← what) (found, right, by_author)
        ]
      ]

  -- Where registerBidder calls its callback, a bearer token verified for the method, its audience is
  -- this service under its own DID, and its service id if it names any, and its issuer is the bidder
  -- that is registered.
  pub register_bidder-IsVerified :
      (auth_header : Option Text) (body : BidderBody) (ctx : BidderContext)
      → register_bidder deps auth_header (some body) ≡ ok ctx
      → IsVerified (own_audience deps) register_bidder_nsid registry_ids auth_header body.bidder_did
        × (ctx.bidder_did ≡ body.bidder_did)
        × (ctx.issuer_did ≡ body.bidder_did)
  unfolding register_bidder
  register_bidder-IsVerified auth_header body ctx h = elim (Option-cases body.applies_to) [
    | inl missing ↦ absurd (ground arith)
    | inr (applies_to, given) ↦
        elim (Result-cases (
          verify_market_service_auth (own_audience deps) auth_header register_bidder_nsid
            registry_ids)) [
              | inl (x, bad) ↦ absurd (ground arith)
              | inr (auth, a) ↦
                  let who : auth.issuer_did ≡ body.bidder_did =
                    ground (arith, text_eq_iff auth.issuer_did body.bidder_did) in
                  (
                    subst
                        (λ did.
                          IsVerified (own_audience deps) register_bidder_nsid registry_ids
                            auth_header did)
                        who
                        (verify_market_service_auth-IsVerified (own_audience deps)
                          register_bidder_nsid registry_ids auth_header auth a),
                    ground (arith, text_eq_iff auth.issuer_did body.bidder_did),
                    ground (arith, text_eq_iff auth.issuer_did body.bidder_did),
                  )
            ]
  ]
