-- ===== src/Relay/Timed/Reached.antt =====
-- The timers of what waits, in every state that the relay reaches.
use compute_contract_referen.Base.{
  arith, refl, ◌≡◌, ℕ, ◌+◌, Bool, Bool-cases, inl, inr, Option-cases, none, some, List, [], ◌∷◌,
  ◌++◌, Memᴰ, Mem-append_right, Text, text_eq, text_eq_iff, Dict, lookup, put, delete, lookup-put,
  err, Unique,
}
use compute_contract_referen.Relay.{
  RelayError, PendingRequest, QueuedRelay, RelayResult, ReconnectQueue, ActiveSubscription,
  RelayState, Callback, time_out, grace_over, empty_relay, flush_reconnect_queue,
  drain_to_reconnect_queue, reject_subscriber_subscriptions, open_subscriber, dispatch_request,
  handle_response, fire, rejections, relay_timeout, did_not_reconnect,
}
use compute_contract_referen.Relay.Timers.{Stands}
use compute_contract_referen.Relay.Consistent.{IsConsistent}
use compute_contract_referen.Relay.Server.{
  subscriber_connected, subscriber_closed, Message, response, subscription_open, subscription_event,
  subscription_close, unknown, subscriber_message, caller_opened, caller_closed, caller_failed,
  open_caller,
}
use compute_contract_referen.Relay.Steps.{
  Step, connect, disconnect, receive, dispatch, expire, subscribe, leave, fail, Reach, start, next,
  Reach-IsConsistent,
}
use compute_contract_referen.Relay.Timed.{IsTimed}
use compute_contract_referen.Relay.Timed.Moved.{
  send_request-IsTimed, send_all-IsTimed, settle-IsTimed, dequeue-IsTimed,
}
use compute_contract_referen.Relay.Timed.Drained.{drain-IsTimed}

-- Subscribers, subscriptions, promises and what was sent play no part.
IsTimed-frame :
    (s : RelayState) (subscribers : Dict ℕ) (subscriptions : Dict ActiveSubscription) (promise : ℕ)
    (sent : List (ℕ × Text)) (closed : List (ℕ × ℕ))
    → IsTimed s
    → IsTimed (record s {
      subscribers = subscribers;
      active_subscriptions = subscriptions;
      next_promise = promise;
      sent = sent;
      closed = closed;
    })
IsTimed-frame s subscribers subscriptions promise sent closed h = record {
  drawn = h.drawn;
  single = h.single;
  pending = h.pending;
  queued = h.queued;
}

empty-IsTimed : IsTimed empty_relay
unfolding lookup
empty-IsTimed = record {
  drawn = λ t c m. elim m [ ];
  single = λ t c d m n. elim m [ ];
  pending = λ id p at. cc;
  queued = λ sub q at. cc;
}

flush-IsTimed :
    (subdomain : Text) (ws : ℕ) (s : RelayState)
    → IsTimed s
    → IsTimed (flush_reconnect_queue subdomain ws s)
unfolding flush_reconnect_queue
flush-IsTimed subdomain ws s h = elim (Option-cases (lookup subdomain s.reconnect_queues)) [
  | inl missing ↦ rw (missing, flush_reconnect_queue) h
  | inr (queue, at) ↦
      rw (at, flush_reconnect_queue)
        (send_all-IsTimed subdomain ws queue.entries _
          (dequeue-IsTimed subdomain queue s s.settled at h))
]

handle_response-IsTimed :
    (id : Text) (result : RelayResult) (s : RelayState)
    → IsTimed s
    → IsTimed (handle_response id result s)
unfolding handle_response
handle_response-IsTimed id result s h = elim (Option-cases (lookup id s.pending_requests)) [
  | inl missing ↦ rw (missing, handle_response) h
  | inr (p, at) ↦ rw (at, handle_response) (settle-IsTimed id p s _ at h)
]

pushed-IsTimed :
    (subdomain : Text) (queue : ReconnectQueue) (entries : List QueuedRelay) (promise : ℕ)
    (s : RelayState)
    → lookup subdomain s.reconnect_queues ≡ some queue
    → IsTimed s
    → IsTimed (record s {
      next_promise = promise;
      reconnect_queues = put subdomain (record queue { entries = entries }) s.reconnect_queues;
    })
pushed-IsTimed subdomain queue entries promise s at h = record {
  drawn = h.drawn;
  single = h.single;
  pending = h.pending;
  queued = λ sub q found. elim (Bool-cases (text_eq subdomain sub)) [
    | inl same ↦
        let made : ReconnectQueue = record queue { entries = entries } in
        let stored = lookup-put subdomain sub made s.reconnect_queues in
        let new : some made ≡ some q = ground arith in
        let is : q ≡ made = cc in
        let key : subdomain ≡ sub = (text_eq_iff subdomain sub).0 same in
        rw (is, ← key) (h.queued subdomain queue at)
    | inr other ↦ h.queued sub q (rw (lookup-put, other) at found)
  ];
}

dispatch-IsTimed :
    (is_open : ℕ → Bool) (subdomain id frame : Text) (s : RelayState)
    → IsTimed s
    → IsTimed (dispatch_request is_open subdomain id frame s).1
unfolding dispatch_request
dispatch-IsTimed is_open subdomain id frame s h =
    elim (Option-cases (open_subscriber is_open subdomain s)) [
      | inr (ws, e) ↦
          rw (e, dispatch_request)
            (send_request-IsTimed subdomain ws _ _ (
              IsTimed-frame s s.subscribers s.active_subscriptions (s.next_promise + 1) s.sent
                s.closed h))
      | inl away ↦ elim (Option-cases (lookup subdomain s.reconnect_queues)) [
        | inl missing ↦ rw (away, missing, dispatch_request) h
        | inr (queue, at) ↦
            rw (away, at, dispatch_request)
              (pushed-IsTimed subdomain queue _ (s.next_promise + 1) s at h)
      ]
    ]

fire-IsTimed :
    (t : ℕ) (c : Callback) (s : RelayState) → Stands s t c → IsTimed s → IsTimed (fire t c s)
unfolding fire
fire-IsTimed t (time_out id promise) s (p, at, same, timer) h =
    rw (← timer) (settle-IsTimed id p s _ at h)
fire-IsTimed t (grace_over subdomain) s (q, at, timer) h =
    rw (← timer) (dequeue-IsTimed subdomain q s _ at h)

message-IsTimed :
    (is_open : ℕ → Bool) (m : Message) (s : RelayState)
    → IsTimed s
    → IsTimed (subscriber_message is_open m s)
unfolding subscriber_message
message-IsTimed is_open (response none result) s h = h
message-IsTimed is_open (response (some id) result) s h = handle_response-IsTimed id result s h
message-IsTimed is_open subscription_open s h = h
message-IsTimed is_open (subscription_event none message) s h = h
message-IsTimed is_open (subscription_event (some id) message) s h =
    elim (Option-cases (open_caller is_open id s)) [
      | inl missing ↦ rw (missing, subscriber_message) h
      | inr (ws, e) ↦
          rw (e, subscriber_message)
            (IsTimed-frame s s.subscribers s.active_subscriptions s.next_promise _ s.closed h)
    ]
message-IsTimed is_open (subscription_close none code) s h = h
message-IsTimed is_open (subscription_close (some id) code) s h =
    elim (Option-cases (open_caller is_open id s)) [
      | inl missing ↦
          rw (missing, subscriber_message)
            (IsTimed-frame s s.subscribers _ s.next_promise s.sent s.closed h)
      | inr (ws, e) ↦
          rw (e, subscriber_message) (IsTimed-frame s s.subscribers _ s.next_promise s.sent _ h)
    ]
message-IsTimed is_open unknown s h = h

subscribed-IsTimed :
    (is_open : ℕ → Bool) (subdomain id nsid : Text) (caller : ℕ) (frame : Text) (s : RelayState)
    → IsTimed s
    → IsTimed (caller_opened is_open subdomain id nsid caller frame s)
unfolding caller_opened
subscribed-IsTimed is_open subdomain id nsid caller frame s h =
    elim (Option-cases (open_subscriber is_open subdomain s)) [
      | inl away ↦
          rw (away, caller_opened)
            (IsTimed-frame s s.subscribers s.active_subscriptions s.next_promise s.sent _ h)
      | inr (ws, e) ↦
          rw (e, caller_opened) (IsTimed-frame s s.subscribers _ s.next_promise _ s.closed h)
    ]

left-IsTimed :
    (is_open : ℕ → Bool) (id cancel : Text) (s : RelayState)
    → IsTimed s
    → IsTimed (caller_closed is_open id cancel s)
unfolding caller_closed
left-IsTimed is_open id cancel s h = elim (Option-cases (lookup id s.active_subscriptions)) [
  | inl missing ↦ rw (missing, caller_closed) h
  | inr (sub, at) ↦ elim (Option-cases (open_subscriber is_open sub.subdomain s)) [
    | inl away ↦
        rw (at, away, caller_closed)
          (IsTimed-frame s s.subscribers _ s.next_promise s.sent s.closed h)
    | inr (ws, e) ↦
        rw (at, e, caller_closed) (IsTimed-frame s s.subscribers _ s.next_promise _ s.closed h)
  ]
]

connected-IsTimed :
    (subdomain : Text) (ws : ℕ) (registered : Text) (s : RelayState)
    → IsTimed s
    → IsTimed (subscriber_connected subdomain ws registered s)
unfolding subscriber_connected
connected-IsTimed subdomain ws registered s h =
    let s' : RelayState = record s { subscribers = put subdomain ws s.subscribers } in
    let flushed = flush_reconnect_queue subdomain ws s' in
    IsTimed-frame flushed flushed.subscribers flushed.active_subscriptions flushed.next_promise
      (flushed.sent ++ (ws, registered) ∷ []) flushed.closed
      (flush-IsTimed subdomain ws s'
        (IsTimed-frame s s'.subscribers s.active_subscriptions s.next_promise s.sent s.closed h))

disconnected-IsTimed :
    (is_open : ℕ → Bool) (subdomain : Text) (s : RelayState)
    → Unique s.pending_requests
    → IsTimed s
    → IsTimed (subscriber_closed is_open subdomain s)
unfolding subscriber_closed reject_subscriber_subscriptions
disconnected-IsTimed is_open subdomain s unique h =
    let s' : RelayState = record s { subscribers = delete subdomain s.subscribers } in
    let drained = drain_to_reconnect_queue subdomain s' in
    IsTimed-frame drained drained.subscribers _ drained.next_promise drained.sent _ (
      drain-IsTimed subdomain s' unique
        (IsTimed-frame s s'.subscribers s.active_subscriptions s.next_promise s.sent s.closed h))

Step-IsTimed : {s t : RelayState} → Step s t → IsConsistent s → IsTimed s → IsTimed t
Step-IsTimed {s} (connect subdomain ws registered) c h =
    connected-IsTimed subdomain ws registered s h
Step-IsTimed {s} (disconnect is_open subdomain) c h =
    disconnected-IsTimed is_open subdomain s c.pending_unique h
Step-IsTimed {s} (receive is_open m) c h = message-IsTimed is_open m s h
Step-IsTimed {s} (dispatch is_open subdomain id frame fresh) c h =
    dispatch-IsTimed is_open subdomain id frame s h
Step-IsTimed {s} (expire t b m) c h = fire-IsTimed t b s (c.standing t b m) h
Step-IsTimed {s} (subscribe is_open subdomain id nsid caller frame) c h =
    subscribed-IsTimed is_open subdomain id nsid caller frame s h
Step-IsTimed {s} (leave is_open id cancel) c h = left-IsTimed is_open id cancel s h
Step-IsTimed {s} (fail id) c h =
    unfold caller_failed in IsTimed-frame s s.subscribers _ s.next_promise s.sent s.closed h

pub Reach-IsTimed : {s : RelayState} → Reach s → IsTimed s
Reach-IsTimed start = empty-IsTimed
Reach-IsTimed (next r step) = Step-IsTimed step (Reach-IsConsistent r) (Reach-IsTimed r)

rejected :
    (subdomain : Text) (e : QueuedRelay) (entries : List QueuedRelay)
    → Memᴰ e entries
    → Memᴰ (e.promise, err (did_not_reconnect subdomain)) (rejections subdomain entries)
unfolding rejections
rejected subdomain e [] m = elim m [ ]
rejected subdomain e (f ∷ entries) (Memᴰ.head same) = Memᴰ.head (rw same refl)
rejected subdomain e (f ∷ entries) (Memᴰ.tail m) = Memᴰ.tail (rejected subdomain e entries m)

-- The promise waits: for a response to a pending request, or in a reconnect queue.
pub data Waits (s : RelayState) (promise : ℕ) : Type 0 where
  for_response :
      (id : Text) (p : PendingRequest)
      → lookup id s.pending_requests ≡ some p
      → p.promise ≡ promise
      → Waits s promise
  for_subscriber :
      (subdomain : Text) (q : ReconnectQueue) (e : QueuedRelay)
      → lookup subdomain s.reconnect_queues ≡ some q
      → Memᴰ e q.entries
      → e.promise ≡ promise
      → Waits s promise

-- Nothing waits for ever: in every state that the relay reaches, a promise that waits, for a response
-- or in a reconnect queue, has a timer that runs, and the firing of that timer is a step that rejects
-- the promise.
pub waiting_settles :
    {s : RelayState} {promise : ℕ}
    → Reach s
    → Waits s promise
    → (t : ℕ) × (c : Callback) × Memᴰ (t, c) s.timers
      × Step s (fire t c s)
      × (why : RelayError) × Memᴰ (promise, err why) (fire t c s).settled
unfolding fire
waiting_settles {s} r (for_response id p at same) =
    let runs = (Reach-IsTimed r).pending id p at in
    (
      p.timer,
      time_out id p.promise,
      runs,
      expire p.timer (time_out id p.promise) runs,
      relay_timeout,
      rw (← same)
          (Mem-append_right s.settled ((p.promise, err relay_timeout) ∷ []) (Memᴰ.head refl)),
    )
waiting_settles {s} r (for_subscriber subdomain q e at m same) =
    let runs = (Reach-IsTimed r).queued subdomain q at in
    (
      q.grace_timer,
      grace_over subdomain,
      runs,
      expire q.grace_timer (grace_over subdomain) runs,
      did_not_reconnect subdomain,
      rw (← same) (Mem-append_right s.settled _ (rw at (rejected subdomain e q.entries m))),
    )
