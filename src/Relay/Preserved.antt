-- ===== src/Relay/Preserved.antt =====
-- The relay's invariant under flushing and its helpers.
use compute_contract_referen.Base.{
  arith, subst, sym, refl, ◌≡◌, ℕ, ◌+◌, false, Bool-cases, Option-cases, inl, inr, Text, text_eq,
  text_eq_iff, lookup, has, Unique, Unique-put, Unique-delete,
}
use compute_contract_referen.Relay.{
  QueuedRelay, Callback, time_out, grace_over, RelayState, send_request, send_all,
  flush_reconnect_queue,
}
use compute_contract_referen.Relay.Weights.{waiting}
use compute_contract_referen.Relay.Conserved.{
  of_promise, of_id, has_weighs, waiting-send_request, Distinct, dequeued, waiting-dequeued,
  dequeued_distinct, waiting-send_all,
}
use compute_contract_referen.Relay.Timers.{Stands, AllStand}
use compute_contract_referen.Relay.Standing.{send_request-AllStand, dequeue-AllStand}
use compute_contract_referen.Relay.Consistent.{IsConsistent, send_all-Sends}

pub flush-IsConsistent :
    (subdomain : Text) (ws : ℕ) (s : RelayState)
    → IsConsistent s
    → IsConsistent (flush_reconnect_queue subdomain ws s)
flush-IsConsistent subdomain ws s c = elim (Option-cases (lookup subdomain s.reconnect_queues)) [
  | inl nothing ↦
      let same : flush_reconnect_queue subdomain ws s ≡ s =
        unfold flush_reconnect_queue in rw (nothing, flush_reconnect_queue) in
      subst IsConsistent (sym same) c
  | inr (queue, e) ↦
      let s' = dequeued subdomain queue s in
      let sent = send_all subdomain ws queue.entries s' in
      let same : flush_reconnect_queue subdomain ws s ≡ sent =
        unfold flush_reconnect_queue in rw (e, flush_reconnect_queue) in
      let distinct : Distinct s'.pending_requests queue.entries =
        λ id. omega (arith, c.ids id, dequeued_distinct subdomain queue s c.queues_unique e id) in
      let kept_all =
        send_all-Sends subdomain ws queue.entries s' distinct c.pending_unique
          (dequeue-AllStand subdomain queue s s.settled e c.standing) in
      let weight : (w : Text → ℕ → ℕ) → waiting w sent ≡ waiting w s = λ w. omega (
        arith,
        waiting-send_all subdomain ws w queue.entries s' distinct,
        waiting-dequeued w subdomain queue s c.queues_unique e,
      ) in
      let result : IsConsistent sent = record {
        ids = λ id. rw (weight (of_id id)) (c.ids id);
        pending_unique = kept_all.unique;
        queues_unique =
            rw kept_all.queues (Unique-delete subdomain s.reconnect_queues c.queues_unique);
        promises = λ p. rw (weight (of_promise p), kept_all.settles, kept_all.next) (c.promises p);
        standing = kept_all.stands;
      } in
      subst IsConsistent (sym same) result
]

advanced : (s : RelayState) → AllStand s → AllStand (record s { next_promise = s.next_promise + 1 })
advanced s all t c m = same c (all t c m)
  where
    same :
        (c : Callback) → Stands s t c → Stands (record s { next_promise = s.next_promise + 1 }) t c
    same (time_out id p) h = h
    same (grace_over sub) h = h

-- An id that does not wait is not pending.
fresh_absent :
    (id : Text) (s : RelayState) → waiting (of_id id) s ≡ 0 → has id s.pending_requests ≡ false
unfolding waiting
fresh_absent id s h = ground (arith, has_weighs id s.pending_requests)

-- One more request waits, under a fresh id, with the next promise.
pub record Adds (id : Text) (s t : RelayState) : Type 0 where
  pub weight : (w : Text → ℕ → ℕ) → waiting w t ≡ waiting w s + w id s.next_promise
  pub settles : t.settled ≡ s.settled
  pub next : t.next_promise ≡ s.next_promise + 1
  pub pending_unique : Unique t.pending_requests
  pub queues_unique : Unique t.reconnect_queues
  pub stands : AllStand t

pub Adds-IsConsistent :
    (id : Text) (s t : RelayState)
    → waiting (of_id id) s ≡ 0
    → IsConsistent s
    → Adds id s t
    → IsConsistent t
Adds-IsConsistent id s t fresh c a = record {
  ids = λ j. elim (Bool-cases (text_eq id j)) [
    | inl same ↦
        let key : id ≡ j = (text_eq_iff id j).0 same in
        let none_yet : waiting (of_id j) s ≡ 0 = rw (← key) fresh in
        let more = a.weight (of_id j) in ground arith
    | inr other ↦ let more = a.weight (of_id j) in let before = c.ids j in ground arith
  ];
  pending_unique = a.pending_unique;
  queues_unique = a.queues_unique;
  promises = λ p.
      let more = a.weight (of_promise p) in
      let before = c.promises p in rw (a.settles, a.next) (ground arith);
  standing = a.stands;
}

pub send_new-Adds :
    (subdomain : Text) (ws : ℕ) (id frame : Text) (s : RelayState)
    → waiting (of_id id) s ≡ 0
    → IsConsistent s
    → Adds id s (
        send_request subdomain ws
          (record { request_id = id; frame = frame; promise = s.next_promise })
          (record s { next_promise = s.next_promise + 1 }))
unfolding send_request waiting
send_new-Adds subdomain ws id frame s fresh c =
    let e : QueuedRelay = record { request_id = id; frame = frame; promise = s.next_promise } in
    let s' : RelayState = record s { next_promise = s.next_promise + 1 } in
    let absent = fresh_absent id s fresh in
    record {
      weight = λ w. waiting-send_request w subdomain ws e s' absent;
      settles = refl;
      next = refl;
      pending_unique = Unique-put id _ s.pending_requests c.pending_unique;
      queues_unique = c.queues_unique;
      stands = send_request-AllStand subdomain ws e s' absent (advanced s c.standing);
    }
