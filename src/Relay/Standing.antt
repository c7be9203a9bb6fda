-- ===== src/Relay/Standing.antt =====
-- The timers of the relay and what waits for them.
use compute_contract_referen.Base.{
  arith, subst, lookup-put_self, ap, sym, refl, ◌≡◌, ◌≢◌, ℕ, false, Bool-cases, inl, inr, Option,
  none, some, List, Result, Memᴰ, Mem-lookup, Mem-snoc, Text, text_eq, text_eq_iff, lookup, has,
  delete, lookup-put, lookup-delete, lookup_absent,
}
use compute_contract_referen.Relay.{
  PendingRequest, QueuedRelay, ReconnectQueue, RelayState, Callback, RelayError, RelayResult,
  time_out, grace_over, drained_timers, clear_timer, without_grace, drain_to_reconnect_queue,
  send_request,
}
use compute_contract_referen.Relay.Timers.{
  Mem-clear_timer, Mem-drained_timers, lookup-kept, Stands, AllStand,
}

Mem-without_grace :
    (existing : Option ReconnectQueue) (t : ℕ) (c : Callback) (timers : List (ℕ × Callback))
    → Memᴰ (t, c) (without_grace existing timers)
    → Memᴰ (t, c) timers × ((q : ReconnectQueue) → existing ≡ some q → t ≢ q.grace_timer)
Mem-without_grace none t c timers m = (m, λ q e. cc)
Mem-without_grace (some queue) t c timers m =
    let (old, other) = Mem-clear_timer queue.grace_timer t c timers m in
    (old, λ q e same. other (ground arith))

module _ (subdomain : Text) where
  drain_old :
      (s : RelayState) (t : ℕ) (c : Callback)
      → AllStand s
      → Memᴰ
          (t, c)
          (drained_timers subdomain s.pending_requests
            (without_grace (lookup subdomain s.reconnect_queues) s.timers))
      → Stands (drain_to_reconnect_queue subdomain s) t c
  unfolding drain_to_reconnect_queue
  drain_old s t (time_out id promise) all m =
      let (m', others) =
        Mem-drained_timers subdomain s.pending_requests t (time_out id promise) _ m in
      let (old, _) =
        Mem-without_grace (lookup subdomain s.reconnect_queues) t (time_out id promise) s.timers
          m' in
      let (p, at, q, timer) = all t (time_out id promise) old in
      elim (Bool-cases (text_eq p.subdomain subdomain)) [
        | inl same ↦ absurd (others id p (Mem-lookup id p s.pending_requests at) same (sym timer))
        | inr other ↦ (p, lookup-kept id subdomain p s.pending_requests at other, q, timer)
      ]
  drain_old s t (grace_over other) all m =
      let (m', _) = Mem-drained_timers subdomain s.pending_requests t (grace_over other) _ m in
      let (old, gone) =
        Mem-without_grace (lookup subdomain s.reconnect_queues) t (grace_over other) s.timers m' in
      let (q, at, timer) = all t (grace_over other) old in
      elim (Bool-cases (text_eq subdomain other)) [
        | inl same ↦
            let key : subdomain ≡ other = (text_eq_iff subdomain other).0 same in
            absurd (gone q (rw key at) (sym timer))
        | inr different ↦ (q, rw (lookup-put, different) at, timer)
      ]

  pub drain-AllStand :
      (s : RelayState) → AllStand s → AllStand (drain_to_reconnect_queue subdomain s)
  unfolding drain_to_reconnect_queue
  drain-AllStand s all t c m = elim (Mem-snoc _ m) [
    | inl old ↦ drain_old s t c all old
    | inr e ↦
        subst (λ (x : ℕ × Callback). Stands (drain_to_reconnect_queue subdomain s) x.0 x.1) (sym e)
          (_, lookup-put_self subdomain _ s.reconnect_queues, refl)
  ]

  send_old :
      (ws : ℕ) (e : QueuedRelay) (s : RelayState) (t : ℕ) (c : Callback)
      → has e.request_id s.pending_requests ≡ false
      → Stands s t c
      → Stands (send_request subdomain ws e s) t c
  unfolding send_request
  send_old ws e s t (time_out id promise) fresh (p, at, q, timer) =
      let absent = lookup_absent e.request_id s.pending_requests fresh in
      elim (Bool-cases (text_eq e.request_id id)) [
        | inl same ↦
            let key : e.request_id ≡ id = (text_eq_iff e.request_id id).0 same in
            absurd (ground (arith, ap (λ k. lookup k s.pending_requests) key))
        | inr other ↦ (p, rw (lookup-put, other) at, q, timer)
      ]
  send_old ws e s t (grace_over other) fresh stands = stands

  pub send_request-AllStand :
      (ws : ℕ) (e : QueuedRelay) (s : RelayState)
      → has e.request_id s.pending_requests ≡ false
      → AllStand s
      → AllStand (send_request subdomain ws e s)
  unfolding send_request
  send_request-AllStand ws e s fresh all t c m = elim (Mem-snoc _ m) [
    | inl old ↦ send_old ws e s t c fresh (all t c old)
    | inr same ↦
        subst (λ (x : ℕ × Callback). Stands (send_request subdomain ws e s) x.0 x.1) (sym same)
          (_, lookup-put_self e.request_id _ s.pending_requests, refl, refl)
  ]

-- A response or a time-out takes a pending request away with its timer.
pub settle-AllStand :
    (id : Text) (p : PendingRequest) (s : RelayState)
    (settled : List (ℕ × Result RelayError RelayResult))
    → lookup id s.pending_requests ≡ some p
    → AllStand s
    → AllStand (record s {
      timers = clear_timer p.timer s.timers;
      pending_requests = delete id s.pending_requests;
      settled = settled;
    })
settle-AllStand id p s settled h all t c m =
    let (old, other) = Mem-clear_timer p.timer t c s.timers m in left c old other
  where
    left :
        (c : Callback)
        → Memᴰ (t, c) s.timers
        → t ≢ p.timer
        → Stands
            (record s {
              timers = clear_timer p.timer s.timers;
              pending_requests = delete id s.pending_requests;
              settled = settled;
            })
            t
            c
    left (time_out j promise) old other =
        let (q, at, same, timer) = all t (time_out j promise) old in
        elim (Bool-cases (text_eq id j)) [
          | inl e ↦
              let key : id ≡ j = (text_eq_iff id j).0 e in
              absurd (other (ground (arith, ap (λ k. lookup k s.pending_requests) key)))
          | inr e ↦ (q, rw (lookup-delete, e) at, same, timer)
        ]
    left (grace_over subdomain) old other = all t (grace_over subdomain) old

-- A queue that is fetched or that has expired takes its timer away.
pub dequeue-AllStand :
    (subdomain : Text) (queue : ReconnectQueue) (s : RelayState)
    (settled : List (ℕ × Result RelayError RelayResult))
    → lookup subdomain s.reconnect_queues ≡ some queue
    → AllStand s
    → AllStand (record s {
      timers = clear_timer queue.grace_timer s.timers;
      reconnect_queues = delete subdomain s.reconnect_queues;
      settled = settled;
    })
dequeue-AllStand subdomain queue s settled h all t c m =
    let (old, other) = Mem-clear_timer queue.grace_timer t c s.timers m in left c old other
  where
    left :
        (c : Callback)
        → Memᴰ (t, c) s.timers
        → t ≢ queue.grace_timer
        → Stands
            (record s {
              timers = clear_timer queue.grace_timer s.timers;
              reconnect_queues = delete subdomain s.reconnect_queues;
              settled = settled;
            })
            t
            c
    left (time_out j promise) old other = all t (time_out j promise) old
    left (grace_over sub) old other =
        let (q, at, timer) = all t (grace_over sub) old in
        elim (Bool-cases (text_eq subdomain sub)) [
          | inl e ↦
              let key : subdomain ≡ sub = (text_eq_iff subdomain sub).0 e in
              absurd (other (ground (arith, ap (λ k. lookup k s.reconnect_queues) key)))
          | inr e ↦ (q, rw (lookup-delete, e) at, timer)
        ]
