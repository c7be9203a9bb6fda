-- ===== src/Relay/Answered.antt =====
-- The relay's invariant under dispatching, answering and the firing of a timer.
use compute_contract_referen.Base.{
  arith, ap, refl, ◌≡◌, ℕ, ◌+◌, Bool, Bool-cases, Option-cases, inl, inr, some, List, [], ◌∷◌, ◌++◌,
  Memᴰ, Text, text_eq, text_eq_iff, lookup, put, delete, Unique-put, Unique-delete, lookup-put,
  Result, ok, err,
}
use compute_contract_referen.Relay.{
  RelayError, RelayResult, PendingRequest, QueuedRelay, ReconnectQueue, Callback, time_out,
  grace_over, RelayState, open_subscriber, dispatch_request, handle_response, rejections,
  run_callback, fire, relay_timeout, clear_timer,
}
use compute_contract_referen.Relay.Weights.{
  weigh_entries, weigh_queues, waiting, weigh_entries-append, weigh_queues-put, weigh_queues-delete,
  weigh_pending-delete,
}
use compute_contract_referen.Relay.Conserved.{
  times_settled, times_settled-append, of_promise, of_id, rejections_settle,
}
use compute_contract_referen.Relay.Timers.{Stands}
use compute_contract_referen.Relay.Standing.{settle-AllStand, dequeue-AllStand}
use compute_contract_referen.Relay.Consistent.{IsConsistent}
use compute_contract_referen.Relay.Preserved.{Adds, Adds-IsConsistent, send_new-Adds}

settle-IsConsistent :
    (id : Text) (p : PendingRequest) (r : Result RelayError RelayResult) (s : RelayState)
    → lookup id s.pending_requests ≡ some p
    → IsConsistent s
    → IsConsistent (record s {
      timers = clear_timer p.timer s.timers;
      pending_requests = delete id s.pending_requests;
      settled = s.settled ++ (p.promise, r) ∷ [];
    })
unfolding waiting times_settled
settle-IsConsistent id p r s at c = record {
  ids = λ j.
      let less = weigh_pending-delete (of_id j) id p s.pending_requests c.pending_unique at in
      let before = c.ids j in ground arith;
  pending_unique = Unique-delete id s.pending_requests c.pending_unique;
  queues_unique = c.queues_unique;
  promises = λ q.
      let less = weigh_pending-delete (of_promise q) id p s.pending_requests c.pending_unique at in
      let before = c.promises q in
      let more = times_settled-append q s.settled ((p.promise, r) ∷ []) in omega arith;
  standing = settle-AllStand id p s (s.settled ++ (p.promise, r) ∷ []) at c.standing;
}

expire-IsConsistent :
    (subdomain : Text) (queue : ReconnectQueue) (s : RelayState)
    → lookup subdomain s.reconnect_queues ≡ some queue
    → IsConsistent s
    → IsConsistent (record s {
      timers = clear_timer queue.grace_timer s.timers;
      reconnect_queues = delete subdomain s.reconnect_queues;
      settled = s.settled ++ rejections subdomain queue.entries;
    })
unfolding waiting
expire-IsConsistent subdomain queue s at c =
    let split : (w : Text → ℕ → ℕ)
        → weigh_queues w (delete subdomain s.reconnect_queues) + weigh_entries w queue.entries
          ≡ weigh_queues w s.reconnect_queues =
      λ w. rw at at (weigh_queues-delete w subdomain s.reconnect_queues c.queues_unique) in
    record {
      ids = λ j. let less = split (of_id j) in let before = c.ids j in omega arith;
      pending_unique = c.pending_unique;
      queues_unique = Unique-delete subdomain s.reconnect_queues c.queues_unique;
      promises = λ q.
          let less = split (of_promise q) in
          let before = c.promises q in
          let more = times_settled-append q s.settled (rejections subdomain queue.entries) in
          let out = rejections_settle q subdomain queue.entries in omega arith;
      standing =
          dequeue-AllStand subdomain queue s (s.settled ++ rejections subdomain queue.entries) at
            c.standing;
    }

fired_time_out :
    (t : ℕ) (id : Text) (promise : ℕ) (p : PendingRequest) (s : RelayState)
    → lookup id s.pending_requests ≡ some p
    → p.promise ≡ promise
    → p.timer ≡ t
    → IsConsistent s
    → IsConsistent (fire t (time_out id promise) s)
unfolding fire run_callback
fired_time_out t id promise p s at same timer c =
    rw (← same, ← timer) (settle-IsConsistent id p (err relay_timeout) s at c)

fired_grace :
    (t : ℕ) (subdomain : Text) (q : ReconnectQueue) (s : RelayState)
    → lookup subdomain s.reconnect_queues ≡ some q
    → q.grace_timer ≡ t
    → IsConsistent s
    → IsConsistent (fire t (grace_over subdomain) s)
unfolding fire run_callback
fired_grace t subdomain q s at timer c = rw (← timer, at) (expire-IsConsistent subdomain q s at c)

-- A timer that is due fires.
pub fire-IsConsistent :
    (t : ℕ) (b : Callback) (s : RelayState)
    → Memᴰ (t, b) s.timers
    → IsConsistent s
    → IsConsistent (fire t b s)
unfolding fire run_callback
fire-IsConsistent t (time_out id promise) s m c =
    let (p, at, same, timer) = c.standing t (time_out id promise) m in
    fired_time_out t id promise p s at same timer c
fire-IsConsistent t (grace_over subdomain) s m c =
    let (q, at, timer) = c.standing t (grace_over subdomain) m in
    fired_grace t subdomain q s at timer c

-- A queue that only grows keeps its timer.
longer-Stands :
    (subdomain : Text) (queue : ReconnectQueue) (entries : List QueuedRelay) (s : RelayState)
    → lookup subdomain s.reconnect_queues ≡ some queue
    → (t : ℕ) (b : Callback) → Stands s t b
    → Stands
        (record s {
          next_promise = s.next_promise + 1;
          reconnect_queues = put subdomain (record queue { entries = entries }) s.reconnect_queues;
        })
        t
        b
longer-Stands subdomain queue entries s at t (time_out id promise) stands = stands
longer-Stands subdomain queue entries s at t (grace_over sub) (q, old, timer) =
    elim (Bool-cases (text_eq subdomain sub)) [
      | inl same ↦
          let key : subdomain ≡ sub = (text_eq_iff subdomain sub).0 same in
          (
            record queue { entries = entries },
            rw (lookup-put, same),
            ground (arith, ap (λ k. lookup k s.reconnect_queues) key),
          )
      | inr other ↦ (q, rw (lookup-put, other) old, timer)
    ]

-- A new promise for a fresh id joins the queue of its subdomain.
queue_new-Adds :
    (subdomain id frame : Text) (queue : ReconnectQueue) (s : RelayState)
    → lookup subdomain s.reconnect_queues ≡ some queue
    → IsConsistent s
    → Adds id s (record s {
      next_promise = s.next_promise + 1;
      reconnect_queues =
          put subdomain
            (record queue {
              entries =
                  queue.entries
                  ++ record { request_id = id; frame = frame; promise = s.next_promise } ∷ [];
            })
            s.reconnect_queues;
    })
unfolding waiting weigh_entries
queue_new-Adds subdomain id frame queue s at c =
    let e : QueuedRelay = record { request_id = id; frame = frame; promise = s.next_promise } in
    let longer : ReconnectQueue = record queue { entries = queue.entries ++ e ∷ [] } in
    record {
      weight = λ w.
          let put_more = weigh_queues-put w subdomain longer s.reconnect_queues in
          let appended = weigh_entries-append w queue.entries (e ∷ []) in
          ground (arith, rw at at put_more);
      settles = refl;
      next = refl;
      pending_unique = c.pending_unique;
      queues_unique = Unique-put subdomain longer s.reconnect_queues c.queues_unique;
      stands = λ t b m.
          longer-Stands subdomain queue (queue.entries ++ e ∷ []) s at t b (c.standing t b m);
    }

pub dispatch-IsConsistent :
    (is_open : ℕ → Bool) (subdomain id frame : Text) (s : RelayState)
    → waiting (of_id id) s ≡ 0
    → IsConsistent s
    → IsConsistent (dispatch_request is_open subdomain id frame s).1
unfolding dispatch_request
dispatch-IsConsistent is_open subdomain id frame s fresh c =
    elim (Option-cases (open_subscriber is_open subdomain s)) [
      | inr (ws, e) ↦
          rw (e, dispatch_request)
            (Adds-IsConsistent id s _ fresh c (send_new-Adds subdomain ws id frame s fresh c))
      | inl closed ↦ elim (Option-cases (lookup subdomain s.reconnect_queues)) [
        | inl nothing ↦ rw (closed, nothing, dispatch_request) c
        | inr (queue, e) ↦
            rw (closed, e, dispatch_request)
              (Adds-IsConsistent id s _ fresh c (queue_new-Adds subdomain id frame queue s e c))
      ]
    ]

pub response-IsConsistent :
    (id : Text) (result : RelayResult) (s : RelayState)
    → IsConsistent s
    → IsConsistent (handle_response id result s)
unfolding handle_response
response-IsConsistent id result s c = elim (Option-cases (lookup id s.pending_requests)) [
  | inl unknown ↦ rw (unknown, handle_response) c
  | inr (p, at) ↦ rw (at, handle_response) (settle-IsConsistent id p (ok result) s at c)
]
