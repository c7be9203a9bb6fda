-- ===== src/Market/Authored.antt =====
-- The request for which a handler of the market calls its callback.
use compute_contract_referen.Base.{
  arith, ◌≡◌, ◌⊎◌, inl, inr, true, false, ◌||◌, Bool-cases, Option, Option-cases, none, some, List,
  [], Text, text_eq, text_eq_iff, Dict, ok, Result-cases,
}
use compute_contract_referen.Market.{
  ServiceAuthResult, MarketServerDeps, at_uri_authority, verify_market_service_auth, authorize,
  verify_authored,
}
use compute_contract_referen.Market.Verified.{IsVerified, verify_market_service_auth-IsVerified}
use compute_contract_referen.Market.Handlers.{
  RfpBody, BidBody, SubmitContext, submit_rfp_lxm, submit_bid_lxm, keys, submit_bid, submit_rfp,
  resolved, choose_callback, bucket_id, or_empty,
}

module _ {R : Type 0} (deps : MarketServerDeps R) where
  -- The token is verified, its issuer is the author of the record's URI, and the record is signed by
  -- that author, unless signatures are not asked for.
  pub record IsAuthored (lxm : Text) (ids : List Text) (auth_header : Option Text) (uri : Text)
      (value : R) (issuer_did : Text) : Type 0 where
    pub verified : IsVerified deps lxm ids auth_header issuer_did
    pub author : issuer_did ≡ at_uri_authority uri
    pub signed :
        (deps.verify_signatures ≡ false) ⊎ (deps.is_signed value (at_uri_authority uri) ≡ true)

  signed_or_off :
      (value : R) (uri : Text)
      → verify_authored deps value uri ≡ ok tt
      → (deps.verify_signatures ≡ false) ⊎ (deps.is_signed value (at_uri_authority uri) ≡ true)
  unfolding verify_authored
  signed_or_off value uri h = ground arith

  pub authored :
      (lxm : Text) (ids : List Text) (auth_header : Option Text) (uri : Text) (value : R)
      (auth : ServiceAuthResult)
      → authorize deps auth_header lxm ids uri ≡ ok auth
      → verify_authored deps value uri ≡ ok tt
      → IsAuthored lxm ids auth_header uri value auth.issuer_did
  unfolding authorize
  authored lxm ids auth_header uri value auth h k =
      elim (Result-cases (verify_market_service_auth deps auth_header lxm ids)) [
        | inl (e, bad) ↦ absurd (ground arith)
        | inr (found, checks) ↦
            elim (Bool-cases (text_eq found.issuer_did (at_uri_authority uri))) [
              | inr other ↦ absurd (ground arith)
              | inl same ↦
                  let is : found ≡ auth = ground arith in
                  rw (← is) (record {
                    verified =
                        verify_market_service_auth-IsVerified deps lxm ids auth_header found checks;
                    author = (text_eq_iff found.issuer_did (at_uri_authority uri)).0 same;
                    signed = signed_or_off value uri k;
                  })
            ]
      ]

  -- Where submitBid calls its callback, a bearer token verified for the method, its audience is this
  -- service under one of its DIDs and one of its service ids if it names any, its issuer is the author
  -- of the bid's URI, and the bid is signed by that author unless signatures are not asked for.
  pub submit_bid-IsAuthored :
      (ids : List Text) (auth_header : Option Text) (body : Option (BidBody R))
      (ctx : SubmitContext R)
      → submit_bid deps ids auth_header body ≡ ok ctx
      → IsAuthored submit_bid_lxm ids auth_header ctx.uri ctx.value ctx.issuer_did
  unfolding submit_bid
  submit_bid-IsAuthored ids auth_header none ctx h = absurd cc
  submit_bid-IsAuthored ids auth_header (some body) ctx h = elim (Option-cases body.value) [
    | inl missing ↦ absurd (ground arith)
    | inr (value, e) ↦ elim (Bool-cases (text_eq body.uri [] || text_eq body.cid [])) [
      | inl empty ↦ absurd (ground arith)
      | inr full ↦ elim (Result-cases (authorize deps auth_header submit_bid_lxm ids body.uri)) [
        | inl (x, bad) ↦ absurd (ground arith)
        | inr (auth, a) ↦ elim (Result-cases (verify_authored deps value body.uri)) [
          | inl (x, bad) ↦ absurd (ground arith)
          | inr (_, v) ↦
              let uri : body.uri ≡ ctx.uri = ground arith in
              let who : auth.issuer_did ≡ ctx.issuer_did = ground arith in
              let what : value ≡ ctx.value = ground arith in
              rw (← uri, ← who, ← what)
                (authored submit_bid_lxm ids auth_header body.uri value auth a v)
        ]
      ]
    ]
  ]

  -- Where submitRfp calls a callback, a bearer token verified for the method, its audience is this
  -- service under one of its DIDs and one of the keys of the callbacks if it names any, its issuer is
  -- the author of the RFP's URI, and the RFP that the URI and CID resolve to is signed by that author
  -- unless signatures are not asked for.
  pub submit_rfp-IsAuthored :
      {C : Type 0} (callbacks : Dict (Dict C)) (auth_header : Option Text) (body : RfpBody)
      (callback : C) (ctx : SubmitContext R)
      → submit_rfp deps callbacks auth_header (some body) ≡ ok (some (callback, ctx))
      → (deps.resolve body.rfp_uri body.rfp_cid ≡ some ctx.value)
        × IsAuthored submit_rfp_lxm
            (keys callbacks)
            auth_header
            body.rfp_uri
            ctx.value
            ctx.issuer_did
  unfolding submit_rfp resolved
  submit_rfp-IsAuthored callbacks auth_header body callback ctx h =
      elim (Bool-cases (text_eq body.rfp_uri [] || text_eq body.rfp_cid [])) [
        | inl empty ↦ absurd (ground arith)
        | inr full ↦
            elim (Result-cases
              (authorize deps auth_header submit_rfp_lxm (keys callbacks) body.rfp_uri)) [
                | inl (x, bad) ↦ absurd (ground arith)
                | inr (auth, a) ↦ elim (Option-cases (deps.resolve body.rfp_uri body.rfp_cid)) [
                  | inl lost ↦ absurd (ground arith)
                  | inr (rfp, found) ↦ elim (Result-cases (verify_authored deps rfp body.rfp_uri)) [
                    | inl (x, bad) ↦ absurd (ground arith)
                    | inr (_, v) ↦
                        elim (Option-cases (
                          choose_callback (bucket_id auth.service_id (keys callbacks))
                            (or_empty (deps.payload_nsid rfp)) callbacks)) [
                              | inl ignored ↦ absurd (ground arith)
                              | inr (chosen, e) ↦
                                  let who : auth.issuer_did ≡ ctx.issuer_did = ground arith in
                                  let what : rfp ≡ ctx.value = ground arith in
                                  rw (← who, ← what)
                                    (
                                      found,
                                      authored submit_rfp_lxm (keys callbacks) auth_header
                                          body.rfp_uri rfp auth a v,
                                    )
                            ]
                  ]
                ]
              ]
      ]
