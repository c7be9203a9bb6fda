-- ===== src/Relay/Handlers.antt =====
-- The relay's invariant under the socket handlers of
-- src/typescript/lib/hono-factory-xrpc-relay/mod.ts.
use compute_contract_referen.Base.{
  ℕ, Bool, inl, inr, Option, Option-cases, none, some, [], ◌∷◌, ◌++◌, Text, put, delete, lookup,
}
use compute_contract_referen.Relay.{
  RelayState, open_subscriber, drain_to_reconnect_queue, reject_subscriber_subscriptions,
  subscriptions_left, callers_closed, flush_reconnect_queue,
}
use compute_contract_referen.Relay.Consistent.{IsConsistent, IsConsistent-frame, drain-IsConsistent}
use compute_contract_referen.Relay.Preserved.{flush-IsConsistent}
use compute_contract_referen.Relay.Answered.{response-IsConsistent}
use compute_contract_referen.Relay.Server.{
  subscriber_connected, subscriber_closed, Message, response, subscription_open, subscription_event,
  subscription_close, unknown, open_caller, subscriber_message, caller_opened, caller_closed,
}

pub connected-IsConsistent :
    (subdomain : Text) (ws : ℕ) (registered : Text) (s : RelayState)
    → IsConsistent s
    → IsConsistent (subscriber_connected subdomain ws registered s)
unfolding subscriber_connected
connected-IsConsistent subdomain ws registered s c =
    let c' =
      flush-IsConsistent subdomain ws (record s { subscribers = put subdomain ws s.subscribers })
        (IsConsistent-frame s (put subdomain ws s.subscribers) s.active_subscriptions s.sent
          s.closed c) in
    let s' =
      flush_reconnect_queue subdomain ws
        (record s { subscribers = put subdomain ws s.subscribers }) in
    IsConsistent-frame s' s'.subscribers s'.active_subscriptions (s'.sent ++ (ws, registered) ∷ [])
      s'.closed c'

pub disconnected-IsConsistent :
    (is_open : ℕ → Bool) (subdomain : Text) (s : RelayState)
    → IsConsistent s
    → IsConsistent (subscriber_closed is_open subdomain s)
unfolding subscriber_closed reject_subscriber_subscriptions
disconnected-IsConsistent is_open subdomain s c =
    let s' : RelayState = record s { subscribers = delete subdomain s.subscribers } in
    let d = drain_to_reconnect_queue subdomain s' in
    IsConsistent-frame d d.subscribers (subscriptions_left subdomain d.active_subscriptions) d.sent
      (d.closed ++ callers_closed is_open subdomain d.active_subscriptions)
      (drain-IsConsistent subdomain s' (
        IsConsistent-frame s (delete subdomain s.subscribers) s.active_subscriptions s.sent s.closed
          c))

pub event-IsConsistent :
    (is_open : ℕ → Bool) (id message : Text) (s : RelayState)
    → IsConsistent s
    → IsConsistent (subscriber_message is_open (subscription_event (some id) message) s)
unfolding subscriber_message
event-IsConsistent is_open id message s c = elim (Option-cases (open_caller is_open id s)) [
  | inl gone ↦ rw (gone, subscriber_message) c
  | inr (ws, e) ↦
      rw (e, subscriber_message)
        (IsConsistent-frame s s.subscribers s.active_subscriptions (s.sent ++ (ws, message) ∷ [])
          s.closed c)
]

pub close-IsConsistent :
    (is_open : ℕ → Bool) (id : Text) (code : Option ℕ) (s : RelayState)
    → IsConsistent s
    → IsConsistent (subscriber_message is_open (subscription_close (some id) code) s)
unfolding subscriber_message
close-IsConsistent is_open id code s c = elim (Option-cases (open_caller is_open id s)) [
  | inl gone ↦
      rw (gone, subscriber_message)
        (IsConsistent-frame s s.subscribers (delete id s.active_subscriptions) s.sent s.closed c)
  | inr (ws, e) ↦
      rw (e, subscriber_message)
        (IsConsistent-frame s s.subscribers (delete id s.active_subscriptions) s.sent _ c)
]

pub message-IsConsistent :
    (is_open : ℕ → Bool) (m : Message) (s : RelayState)
    → IsConsistent s
    → IsConsistent (subscriber_message is_open m s)
message-IsConsistent is_open (response none result) s c = unfold subscriber_message in c
message-IsConsistent is_open (response (some id) result) s c =
    unfold subscriber_message in response-IsConsistent id result s c
message-IsConsistent is_open subscription_open s c = unfold subscriber_message in c
message-IsConsistent is_open (subscription_event none m) s c = unfold subscriber_message in c
message-IsConsistent is_open (subscription_event (some id) m) s c =
    event-IsConsistent is_open id m s c
message-IsConsistent is_open (subscription_close none code) s c = unfold subscriber_message in c
message-IsConsistent is_open (subscription_close (some id) code) s c =
    close-IsConsistent is_open id code s c
message-IsConsistent is_open unknown s c = unfold subscriber_message in c

pub subscribed-IsConsistent :
    (is_open : ℕ → Bool) (subdomain id nsid : Text) (caller : ℕ) (frame : Text) (s : RelayState)
    → IsConsistent s
    → IsConsistent (caller_opened is_open subdomain id nsid caller frame s)
unfolding caller_opened
subscribed-IsConsistent is_open subdomain id nsid caller frame s c =
    elim (Option-cases (open_subscriber is_open subdomain s)) [
      | inl gone ↦
          rw (gone, caller_opened)
            (IsConsistent-frame s s.subscribers s.active_subscriptions s.sent _ c)
      | inr (ws, e) ↦ rw (e, caller_opened) (IsConsistent-frame s s.subscribers _ _ s.closed c)
    ]

pub left-IsConsistent :
    (is_open : ℕ → Bool) (id cancel : Text) (s : RelayState)
    → IsConsistent s
    → IsConsistent (caller_closed is_open id cancel s)
unfolding caller_closed
left-IsConsistent is_open id cancel s c = elim (Option-cases (lookup id s.active_subscriptions)) [
  | inl gone ↦ rw (gone, caller_closed) c
  | inr (sub, e) ↦ elim (Option-cases (open_subscriber is_open sub.subdomain s)) [
    | inl away ↦
        rw (e, away, caller_closed)
          (IsConsistent-frame s s.subscribers (delete id s.active_subscriptions) s.sent s.closed c)
    | inr (ws, here) ↦
        rw (e, here, caller_closed)
          (IsConsistent-frame s s.subscribers (delete id s.active_subscriptions)
            (s.sent ++ (ws, cancel) ∷ []) s.closed c)
  ]
]
