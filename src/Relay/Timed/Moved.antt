-- ===== src/Relay/Timed/Moved.antt =====
-- What waits keeps its timer when a request is sent or settles, and when a queue is fetched.
use compute_contract_referen.Base.{
  arith, sym, refl, ◌≡◌, ℕ, Bool-cases, inl, inr, some, List, [], ◌∷◌, Memᴰ, Mem-append_left,
  Mem-append_right, Text, text_eq, text_eq_iff, lookup, delete, lookup-put, lookup-delete, Result,
}
use compute_contract_referen.Relay.{
  PendingRequest, QueuedRelay, ReconnectQueue, RelayState, Callback, RelayError, RelayResult,
  time_out, grace_over, clear_timer, send_request, send_all,
}
use compute_contract_referen.Relay.Timers.{Mem-clear_timer}
use compute_contract_referen.Relay.Timed.{
  IsTimed, clear_timer-Mem, grown_drawn, grown_single, time_out_id, grace_subdomain, numbers_differ,
}

same_timer :
    (made p : PendingRequest) (id j : Text)
    → some made ≡ some p
    → id ≡ j
    → ◌≡◌ {A = ℕ × Callback} (p.timer, time_out id p.promise) (made.timer, time_out j made.promise)
same_timer made p id j e key = let same : p ≡ made = cc in rw (same, key) refl

pub send_request-IsTimed :
    (subdomain : Text) (ws : ℕ) (e : QueuedRelay) (s : RelayState)
    → IsTimed s
    → IsTimed (send_request subdomain ws e s)
unfolding send_request
send_request-IsTimed subdomain ws e s h = record {
  drawn = grown_drawn s h s.timers (λ t c m. m) (time_out e.request_id e.promise);
  single = grown_single s h s.timers (λ t c m. m) (time_out e.request_id e.promise);
  pending = λ id p at. elim (Bool-cases (text_eq e.request_id id)) [
    | inl same ↦
        let key : e.request_id ≡ id = (text_eq_iff e.request_id id).0 same in
        let made : PendingRequest = record {
          subdomain = subdomain;
          promise = e.promise;
          timer = s.next_timer;
          frame = e.frame;
        } in
        let stored = lookup-put e.request_id id made s.pending_requests in
        let found : some made ≡ some p = ground arith in
        Mem-append_right s.timers ((s.next_timer, time_out e.request_id e.promise) ∷ [])
          (Memᴰ.head (same_timer made p id e.request_id found (sym key)))
    | inr other ↦
        Mem-append_left s.timers ((s.next_timer, time_out e.request_id e.promise) ∷ [])
          (h.pending id p (rw (lookup-put, other) at at))
  ];
  queued = λ sub q at.
      Mem-append_left s.timers ((s.next_timer, time_out e.request_id e.promise) ∷ [])
        (h.queued sub q at);
}

pub send_all-IsTimed :
    (subdomain : Text) (ws : ℕ) (entries : List QueuedRelay) (s : RelayState)
    → IsTimed s
    → IsTimed (send_all subdomain ws entries s)
unfolding send_all
send_all-IsTimed subdomain ws [] s h = h
send_all-IsTimed subdomain ws (e ∷ entries) s h =
    send_all-IsTimed subdomain ws entries (send_request subdomain ws e s)
      (send_request-IsTimed subdomain ws e s h)

-- A pending request is taken away, and its timer with it.
pub settle-IsTimed :
    (id : Text) (p : PendingRequest) (s : RelayState)
    (settled : List (ℕ × Result RelayError RelayResult))
    → lookup id s.pending_requests ≡ some p
    → IsTimed s
    → IsTimed (record s {
      timers = clear_timer p.timer s.timers;
      pending_requests = delete id s.pending_requests;
      settled = settled;
    })
settle-IsTimed id p s settled at h = record {
  drawn = λ t c m. h.drawn t c (Mem-clear_timer p.timer t c s.timers m).0;
  single = λ t c d m n.
      h.single t c d (Mem-clear_timer p.timer t c s.timers m).0
        (Mem-clear_timer p.timer t d s.timers n).0;
  pending = λ j q found. elim (Bool-cases (text_eq id j)) [
    | inl same ↦ let gone = lookup-delete id j s.pending_requests in absurd (ground arith)
    | inr other ↦
        let mine = h.pending id p at in
        let theirs = h.pending j q (rw (lookup-delete, other) at found) in
        clear_timer-Mem p.timer q.timer (time_out j q.promise) s.timers theirs (
          numbers_differ {s = s} h theirs mine
            (λ e. absurd (ground (arith, text_eq_iff id j, time_out_id e))))
  ];
  queued = λ sub q found.
      let mine = h.pending id p at in
      let theirs = h.queued sub q found in
      clear_timer-Mem p.timer q.grace_timer (grace_over sub) s.timers theirs
        (numbers_differ {s = s} h theirs mine (λ e. cc));
}

-- A queue is taken away, and its timer with it.
pub dequeue-IsTimed :
    (subdomain : Text) (queue : ReconnectQueue) (s : RelayState)
    (settled : List (ℕ × Result RelayError RelayResult))
    → lookup subdomain s.reconnect_queues ≡ some queue
    → IsTimed s
    → IsTimed (record s {
      timers = clear_timer queue.grace_timer s.timers;
      reconnect_queues = delete subdomain s.reconnect_queues;
      settled = settled;
    })
dequeue-IsTimed subdomain queue s settled at h = record {
  drawn = λ t c m. h.drawn t c (Mem-clear_timer queue.grace_timer t c s.timers m).0;
  single = λ t c d m n.
      h.single t c d (Mem-clear_timer queue.grace_timer t c s.timers m).0
        (Mem-clear_timer queue.grace_timer t d s.timers n).0;
  pending = λ j q found.
      let mine = h.queued subdomain queue at in
      let theirs = h.pending j q found in
      clear_timer-Mem queue.grace_timer q.timer (time_out j q.promise) s.timers theirs
        (numbers_differ {s = s} h theirs mine (λ e. cc));
  queued = λ sub q found. elim (Bool-cases (text_eq subdomain sub)) [
    | inl same ↦ let gone = lookup-delete subdomain sub s.reconnect_queues in absurd (ground arith)
    | inr other ↦
        let mine = h.queued subdomain queue at in
        let theirs = h.queued sub q (rw (lookup-delete, other) at found) in
        clear_timer-Mem queue.grace_timer q.grace_timer (grace_over sub) s.timers theirs (
          numbers_differ {s = s} h theirs mine
            (λ e. absurd (ground (arith, text_eq_iff subdomain sub, grace_subdomain e))))
  ];
}
