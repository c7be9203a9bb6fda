-- ===== src/Relay/Conserved.antt =====
-- What each operation does to the weight of the waiting requests, and to the settled promises.
use compute_contract_referen.Base.{
  arith, refl, ◌≡◌, ◌≤◌, ℕ, ◌+◌, true, false, Option-cases, inl, inr, some, List, [], ◌∷◌, ◌++◌,
  if◌then◌else◌, ◌==◌, Text, text_eq, text_eq_iff, Dict, lookup, has, delete, Unique, Result,
}
use compute_contract_referen.Relay.{
  RelayError, RelayResult, PendingRequest, QueuedRelay, ReconnectQueue, RelayState, queued_entries,
  drain_to_reconnect_queue, send_request, send_all, flush_reconnect_queue, rejections, drained,
  clear_timer,
}
use compute_contract_referen.Relay.Weights.{
  weigh_pending, weigh_entries, waiting, weigh_entries-append, weigh_drained, weigh_queues-put,
  weigh_queues-delete, weigh_pending-put,
}

-- How often a promise has settled.
unfoldable pub times_settled : ℕ → List (ℕ × Result RelayError RelayResult) → ℕ
times_settled p [] = 0
times_settled p ((q, r) ∷ settled) = (if q == p then 1 else 0) + times_settled p settled

pub times_settled-append :
    (p : ℕ) (xs ys : List (ℕ × Result RelayError RelayResult))
    → times_settled p (xs ++ ys) ≡ times_settled p xs + times_settled p ys
unfolding times_settled
times_settled-append p [] ys = omega arith
times_settled-append p ((q, r) ∷ xs) ys = omega (arith, times_settled-append p xs ys)

-- Of one promise, and of one id.
abbrev pub of_promise : ℕ → Text → ℕ → ℕ
of_promise p id q = if q == p then 1 else 0

abbrev pub of_id : Text → Text → ℕ → ℕ
of_id id j q = if text_eq j id then 1 else 0

pub rejections_settle :
    (p : ℕ) (subdomain : Text) (entries : List QueuedRelay)
    → times_settled p (rejections subdomain entries) ≡ weigh_entries (of_promise p) entries
unfolding times_settled rejections weigh_entries
rejections_settle p subdomain [] = refl
rejections_settle p subdomain (e ∷ entries) = omega (arith, rejections_settle p subdomain entries)

-- An id that is pending weighs at least one.
pub has_weighs :
    (id : Text) (pending : Dict PendingRequest)
    → has id pending ≡ true
    → 1 ≤ weigh_pending (of_id id) pending
unfolding has weigh_pending
has_weighs id [] h = cc
has_weighs id ((j, p) ∷ pending) h = ground (arith, has_weighs id pending)

module _ (w : Text → ℕ → ℕ) (subdomain : Text) where
  pub drain_waiting :
      (s : RelayState) → waiting w (drain_to_reconnect_queue subdomain s) ≡ waiting w s
  unfolding waiting drain_to_reconnect_queue
  drain_waiting s = omega (
    arith,
    weigh_drained w subdomain s.pending_requests,
    weigh_entries-append w (queued_entries (lookup subdomain s.reconnect_queues))
        (drained subdomain s.pending_requests),
    weigh_queues-put w subdomain
        (record {
          entries =
              queued_entries (lookup subdomain s.reconnect_queues)
              ++ drained subdomain s.pending_requests;
          grace_timer = s.next_timer;
        })
        s.reconnect_queues,
  )

  pub waiting-send_request :
      (ws : ℕ) (e : QueuedRelay) (s : RelayState)
      → has e.request_id s.pending_requests ≡ false
      → waiting w (send_request subdomain ws e s) ≡ waiting w s + w e.request_id e.promise
  unfolding waiting send_request
  waiting-send_request ws e s h = omega (
    arith,
    weigh_pending-put w e.request_id
        (record {
          subdomain = subdomain;
          promise = e.promise;
          timer = s.next_timer;
          frame = e.frame;
        })
        s.pending_requests h,
  )

-- The state in which the entries of a queue are sent.
abbrev pub dequeued : Text → ReconnectQueue → RelayState → RelayState
dequeued subdomain queue s = record s {
  timers = clear_timer queue.grace_timer s.timers;
  reconnect_queues = delete subdomain s.reconnect_queues;
}

pub waiting-dequeued :
    (w : Text → ℕ → ℕ) (subdomain : Text) (queue : ReconnectQueue) (s : RelayState)
    → Unique s.reconnect_queues
    → lookup subdomain s.reconnect_queues ≡ some queue
    → waiting w (dequeued subdomain queue s) + weigh_entries w queue.entries ≡ waiting w s
unfolding waiting
waiting-dequeued w subdomain queue s u e =
    let split = weigh_queues-delete w subdomain s.reconnect_queues u in
    ground (arith, rw e at split)

pub dequeued_distinct :
    (subdomain : Text) (queue : ReconnectQueue) (s : RelayState)
    → Unique s.reconnect_queues
    → lookup subdomain s.reconnect_queues ≡ some queue
    → (id : Text)
    → weigh_pending (of_id id) s.pending_requests + weigh_entries (of_id id) queue.entries
      ≤ waiting (of_id id) s
unfolding waiting
dequeued_distinct subdomain queue s u e id =
    let split = weigh_queues-delete (of_id id) subdomain s.reconnect_queues u in
    ground (arith, rw e at split)

-- Each id waits at most once among the pending requests and the entries.
abbrev pub Distinct : Dict PendingRequest → List QueuedRelay → Type 0
Distinct pending entries =
    (id : Text) → weigh_pending (of_id id) pending + weigh_entries (of_id id) entries ≤ 1

module _ (subdomain : Text) (ws : ℕ) where
  pub Distinct-head :
      (e : QueuedRelay) (entries : List QueuedRelay) (pending : Dict PendingRequest)
      → Distinct pending (e ∷ entries)
      → has e.request_id pending ≡ false
  unfolding weigh_entries
  Distinct-head e entries pending h = ground (
    arith,
    h e.request_id,
    has_weighs e.request_id pending,
    text_eq_iff e.request_id e.request_id,
  )

  pub Distinct-tail :
      (e : QueuedRelay) (entries : List QueuedRelay) (s : RelayState)
      → Distinct s.pending_requests (e ∷ entries)
      → Distinct (send_request subdomain ws e s).pending_requests entries
  unfolding weigh_entries send_request
  Distinct-tail e entries s h id = omega (
    arith,
    h id,
    weigh_pending-put (of_id id) e.request_id
        (record {
          subdomain = subdomain;
          promise = e.promise;
          timer = s.next_timer;
          frame = e.frame;
        })
        s.pending_requests (Distinct-head e entries s.pending_requests h),
  )

  pub waiting-send_all :
      (w : Text → ℕ → ℕ) (entries : List QueuedRelay) (s : RelayState)
      → Distinct s.pending_requests entries
      → waiting w (send_all subdomain ws entries s) ≡ waiting w s + weigh_entries w entries
  unfolding send_all weigh_entries
  waiting-send_all w [] s h = omega arith
  waiting-send_all w (e ∷ entries) s h = omega (
    arith,
    waiting-send_all w entries (send_request subdomain ws e s) (Distinct-tail e entries s h),
    waiting-send_request w subdomain ws e s (Distinct-head e entries s.pending_requests h),
  )

  pub flush_waiting :
      (w : Text → ℕ → ℕ) (s : RelayState)
      → Unique s.reconnect_queues
      → ((id : Text) → waiting (of_id id) s ≤ 1)
      → waiting w (flush_reconnect_queue subdomain ws s) ≡ waiting w s
  unfolding flush_reconnect_queue
  flush_waiting w s u h = elim (Option-cases (lookup subdomain s.reconnect_queues)) [
    | inl nothing ↦ rw (nothing, flush_reconnect_queue)
    | inr (queue, e) ↦
        let s' = dequeued subdomain queue s in
        let distinct : Distinct s'.pending_requests queue.entries =
          λ id. omega (arith, h id, dequeued_distinct subdomain queue s u e id) in
        rw (e, flush_reconnect_queue)
          (omega (
            arith,
            waiting-send_all w queue.entries s' distinct,
            waiting-dequeued w subdomain queue s u e,
          ))
  ]
