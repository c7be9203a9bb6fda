-- ===== src/Relay.antt =====
-- `RelayState` of src/typescript/lib/xrpc-relay/relay.ts. A promise is a number, its `resolve` and
-- `reject` record how it settles; a socket is a number, and `is_open` says whether its readyState is
-- OPEN. A timer is an entry of `timers` until it fires or is cleared. The callback of a grace timer
-- holds the array of the queue that it was set for, which is the queue that stands when it fires.
pub mod Weights
pub mod Conserved
pub mod Handlers
pub mod Steps
pub mod Reconnect
pub mod Nonces
pub mod Registration
mod Tests
pub mod Server
pub mod Timers
pub mod Standing
pub mod Timed
pub mod Consistent
pub mod Preserved
pub mod Answered
use compute_contract_referen.Base.{
  ℕ, ◌+◌, Bool, true, false, Option, none, some, List, [], ◌∷◌, ◌++◌, ◌==◌, if◌then◌else◌, Text,
  text_eq, Dict, lookup, put, delete, Result, ok, err,
}

pub data RelayError : Type 0 where
  no_subscriber : Text → RelayError
  relay_timeout : RelayError
  did_not_reconnect : Text → RelayError

pub record RelayResult : Type 0 where
  pub status : ℕ
  pub body : Text
  pub content_type : Option Text

pub record PendingRequest : Type 0 where
  pub subdomain : Text
  pub promise : ℕ
  pub timer : ℕ
  pub frame : Text

pub record QueuedRelay : Type 0 where
  pub request_id : Text
  pub frame : Text
  pub promise : ℕ

pub record ReconnectQueue : Type 0 where
  pub entries : List QueuedRelay
  pub grace_timer : ℕ

pub record ActiveSubscription : Type 0 where
  pub caller_ws : ℕ
  pub subdomain : Text
  pub nsid : Text

-- What a timer does when it fires.
pub data Callback : Type 0 where
  time_out : Text → ℕ → Callback
  grace_over : Text → Callback

pub record RelayState : Type 0 where
  pub subscribers : Dict ℕ
  pub pending_requests : Dict PendingRequest
  pub reconnect_queues : Dict ReconnectQueue
  pub active_subscriptions : Dict ActiveSubscription
  pub timers : List (ℕ × Callback)
  pub next_timer : ℕ
  pub next_promise : ℕ
  -- the promises that have settled, and how
  pub settled : List (ℕ × Result RelayError RelayResult)
  -- the frames that were sent, with their sockets
  pub sent : List (ℕ × Text)
  -- the sockets that were closed, with the code
  pub closed : List (ℕ × ℕ)

abbrev pub empty_relay : RelayState
empty_relay = record {
  subscribers = [];
  pending_requests = [];
  reconnect_queues = [];
  active_subscriptions = [];
  timers = [];
  next_timer = 0;
  next_promise = 0;
  settled = [];
  sent = [];
  closed = [];
}

-- `clearTimeout(timer)`
unfoldable pub clear_timer : ℕ → List (ℕ × Callback) → List (ℕ × Callback)
clear_timer timer [] = []
clear_timer timer ((t, callback) ∷ timers) =
    let rest = clear_timer timer timers in if t == timer then rest else (t, callback) ∷ rest

-- The pending requests of other subdomains.
unfoldable pub kept : Text → Dict PendingRequest → Dict PendingRequest
unfolding text_eq
kept subdomain [] = []
kept subdomain ((id, p) ∷ pending) =
    let rest = kept subdomain pending in
    if text_eq p.subdomain subdomain then rest else (id, p) ∷ rest

-- The queue entries for the pending requests of the subdomain.
unfoldable pub drained : Text → Dict PendingRequest → List QueuedRelay
unfolding text_eq
drained subdomain [] = []
drained subdomain ((id, p) ∷ pending) =
    let rest = drained subdomain pending in
    if text_eq p.subdomain subdomain
    then record { request_id = id; frame = p.frame; promise = p.promise } ∷ rest
    else rest

-- The timers without those of the pending requests of the subdomain.
unfoldable pub drained_timers :
    Text → Dict PendingRequest → List (ℕ × Callback) → List (ℕ × Callback)
unfolding text_eq clear_timer
drained_timers subdomain [] timers = timers
drained_timers subdomain ((id, p) ∷ pending) timers =
    drained_timers subdomain pending
      (if text_eq p.subdomain subdomain then clear_timer p.timer timers else timers)

abbrev pub queued_entries : Option ReconnectQueue → List QueuedRelay
queued_entries none = []
queued_entries (some queue) = queue.entries

abbrev pub without_grace : Option ReconnectQueue → List (ℕ × Callback) → List (ℕ × Callback)
without_grace none timers = timers
without_grace (some queue) timers = clear_timer queue.grace_timer timers

-- `drainToReconnectQueue`
unfoldable pub drain_to_reconnect_queue : Text → RelayState → RelayState
unfolding kept drained drained_timers lookup put
drain_to_reconnect_queue subdomain s =
    let existing = lookup subdomain s.reconnect_queues in
    record s {
      pending_requests = kept subdomain s.pending_requests;
      timers =
          drained_timers subdomain s.pending_requests (without_grace existing s.timers)
          ++ (s.next_timer, grace_over subdomain) ∷ [];
      next_timer = s.next_timer + 1;
      reconnect_queues =
          put subdomain
            (record {
              entries = queued_entries existing ++ drained subdomain s.pending_requests;
              grace_timer = s.next_timer;
            })
            s.reconnect_queues;
    }

-- One request is sent to the socket, and is pending from then on.
unfoldable pub send_request : Text → ℕ → QueuedRelay → RelayState → RelayState
unfolding put
send_request subdomain ws e s = record s {
  timers = s.timers ++ (s.next_timer, time_out e.request_id e.promise) ∷ [];
  next_timer = s.next_timer + 1;
  pending_requests =
      put e.request_id
        (record {
          subdomain = subdomain;
          promise = e.promise;
          timer = s.next_timer;
          frame = e.frame;
        })
        s.pending_requests;
  sent = s.sent ++ (ws, e.frame) ∷ [];
}

-- The loop of `flushReconnectQueue`.
unfoldable pub send_all : Text → ℕ → List QueuedRelay → RelayState → RelayState
unfolding send_request
send_all subdomain ws [] s = s
send_all subdomain ws (e ∷ entries) s =
    send_all subdomain ws entries (send_request subdomain ws e s)

-- `flushReconnectQueue`
unfoldable pub flush_reconnect_queue : Text → ℕ → RelayState → RelayState
unfolding lookup delete clear_timer send_all
flush_reconnect_queue subdomain ws s = elim (lookup subdomain s.reconnect_queues) [
  | none ↦ s
  | some queue ↦ send_all subdomain ws queue.entries (record s {
    timers = clear_timer queue.grace_timer s.timers;
    reconnect_queues = delete subdomain s.reconnect_queues;
  })
]

unfoldable pub subscriptions_left : Text → Dict ActiveSubscription → Dict ActiveSubscription
unfolding text_eq
subscriptions_left subdomain [] = []
subscriptions_left subdomain ((id, sub) ∷ subs) =
    let rest = subscriptions_left subdomain subs in
    if text_eq sub.subdomain subdomain then rest else (id, sub) ∷ rest

-- The callers that are closed with code 4001.
unfoldable pub callers_closed : (ℕ → Bool) → Text → Dict ActiveSubscription → List (ℕ × ℕ)
unfolding text_eq
callers_closed is_open subdomain [] = []
callers_closed is_open subdomain ((id, sub) ∷ subs) =
    let rest = callers_closed is_open subdomain subs in
    if text_eq sub.subdomain subdomain
    then (if is_open sub.caller_ws then (sub.caller_ws, 4001) ∷ rest else rest)
    else rest

-- `rejectSubscriberSubscriptions`
unfoldable pub reject_subscriber_subscriptions : (ℕ → Bool) → Text → RelayState → RelayState
unfolding subscriptions_left callers_closed
reject_subscriber_subscriptions is_open subdomain s = record s {
  active_subscriptions = subscriptions_left subdomain s.active_subscriptions;
  closed = s.closed ++ callers_closed is_open subdomain s.active_subscriptions;
}

-- The subscriber's socket, if there is one and it is open.
unfoldable pub open_subscriber : (ℕ → Bool) → Text → RelayState → Option ℕ
unfolding lookup
open_subscriber is_open subdomain s = elim (lookup subdomain s.subscribers) [
  | none ↦ none
  | some ws ↦ if is_open ws then some ws else none
]

-- `dispatchRequest`: the promise that it returns, or what it throws.
unfoldable pub dispatch_request :
    (ℕ → Bool) → Text → Text → Text → RelayState → Result RelayError ℕ × RelayState
unfolding open_subscriber lookup put send_request
dispatch_request is_open subdomain request_id frame s =
    let promise = s.next_promise in
    let e : QueuedRelay = record { request_id = request_id; frame = frame; promise = promise } in
    elim (open_subscriber is_open subdomain s) [
      | some ws ↦
          (ok promise, send_request subdomain ws e (record s { next_promise = promise + 1 }))
      | none ↦ elim (lookup subdomain s.reconnect_queues) [
        | none ↦ (err (no_subscriber subdomain), s)
        | some queue ↦ (
          ok promise,
          record s {
            next_promise = promise + 1;
            reconnect_queues =
                put subdomain (record queue { entries = queue.entries ++ e ∷ [] })
                  s.reconnect_queues;
          },
        )
      ]
    ]

-- `handleResponse`
unfoldable pub handle_response : Text → RelayResult → RelayState → RelayState
unfolding lookup delete clear_timer
handle_response request_id result s = elim (lookup request_id s.pending_requests) [
  | none ↦ s
  | some pending ↦ record s {
    timers = clear_timer pending.timer s.timers;
    pending_requests = delete request_id s.pending_requests;
    settled = s.settled ++ (pending.promise, ok result) ∷ [];
  }
]

-- The rejections of a queue that was not fetched in time.
unfoldable pub rejections : Text → List QueuedRelay → List (ℕ × Result RelayError RelayResult)
rejections subdomain [] = []
rejections subdomain (e ∷ entries) =
    (e.promise, err (did_not_reconnect subdomain)) ∷ rejections subdomain entries

-- The callbacks of the two kinds of timer.
unfoldable pub run_callback : Callback → RelayState → RelayState
unfolding delete lookup rejections
run_callback (time_out request_id promise) s = record s {
  pending_requests = delete request_id s.pending_requests;
  settled = s.settled ++ (promise, err relay_timeout) ∷ [];
}
run_callback (grace_over subdomain) s = record s {
  reconnect_queues = delete subdomain s.reconnect_queues;
  settled =
      s.settled ++ rejections subdomain (queued_entries (lookup subdomain s.reconnect_queues));
}

-- A timer fires: it is no more, and its callback runs.
unfoldable pub fire : ℕ → Callback → RelayState → RelayState
unfolding clear_timer run_callback
fire timer callback s = run_callback callback (record s { timers = clear_timer timer s.timers })
