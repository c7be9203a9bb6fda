-- ===== src/Relay/Timed/Drained.antt =====
-- What waits keeps its timer when a subdomain is drained into its reconnect queue.
use compute_contract_referen.Base.{
  arith, ap, sym, refl, ◌≡◌, ◌≢◌, ℕ, false, Bool-cases, inl, inr, Option, Option-cases, none, some,
  List, [], ◌∷◌, ◌++◌, Memᴰ, Mem-append_left, Mem-append_right, Text, text_eq, text_eq_iff, lookup,
  lookup-put, Unique,
}
use compute_contract_referen.Relay.{
  PendingRequest, ReconnectQueue, RelayState, Callback, time_out, grace_over, drained_timers,
  without_grace, drain_to_reconnect_queue, queued_entries, drained,
}
use compute_contract_referen.Relay.Timers.{Mem-clear_timer, Mem-drained_timers}
use compute_contract_referen.Relay.Timed.{
  IsTimed, clear_timer-Mem, drained_timers-Mem, lookup_of_Mem, kept-lookup, grown_drawn,
  grown_single, time_out_id, grace_subdomain, numbers_differ,
}

same_grace :
    (made q : ReconnectQueue) (a b : Text)
    → some made ≡ some q
    → a ≡ b
    → ◌≡◌ {A = ℕ × Callback} (q.grace_timer, grace_over a) (made.grace_timer, grace_over b)
same_grace made q a b e key = let same : q ≡ made = cc in rw (same, key) refl

drop_grace :
    (subdomain : Text) (s : RelayState) (t : ℕ) (c : Callback)
    → IsTimed s
    → Memᴰ (t, c) s.timers
    → ((q : ReconnectQueue) → lookup subdomain s.reconnect_queues ≡ some q → t ≢ q.grace_timer)
    → Memᴰ (t, c) (without_grace (lookup subdomain s.reconnect_queues) s.timers)
drop_grace subdomain s t c h m other = elim (Option-cases (lookup subdomain s.reconnect_queues)) [
  | inl missing ↦ rw missing m
  | inr (q, at) ↦ rw at (clear_timer-Mem q.grace_timer t c s.timers m (other q at))
]

grace_dropped :
    (existing : Option ReconnectQueue) (t : ℕ) (c : Callback) (timers : List (ℕ × Callback))
    → Memᴰ (t, c) (without_grace existing timers)
    → Memᴰ (t, c) timers
grace_dropped none t c timers m = m
grace_dropped (some q) t c timers m = (Mem-clear_timer q.grace_timer t c timers m).0

module _ (subdomain : Text) (s : RelayState) (unique : Unique s.pending_requests)
    (h : IsTimed s) where
  -- The timers that a drained subdomain leaves.
  abbrev left : List (ℕ × Callback)
  left =
      drained_timers subdomain s.pending_requests
        (without_grace (lookup subdomain s.reconnect_queues) s.timers)

  left_old : (t : ℕ) (c : Callback) → Memᴰ (t, c) left → Memᴰ (t, c) s.timers
  left_old t c m =
      grace_dropped (lookup subdomain s.reconnect_queues) t c s.timers
        (Mem-drained_timers subdomain s.pending_requests t c _ m).0

  pending_left :
      (id : Text) (p : PendingRequest)
      → lookup id s.pending_requests ≡ some p
      → text_eq p.subdomain subdomain ≡ false
      → Memᴰ (p.timer, time_out id p.promise) left
  pending_left id p at different =
      let mine = h.pending id p at in
      drained_timers-Mem subdomain s.pending_requests p.timer (time_out id p.promise) _
        (drop_grace subdomain s p.timer (time_out id p.promise) h mine
          (λ q found. numbers_differ {s = s} h mine (h.queued subdomain q found) (λ e. cc)))
        (λ j q m same.
          let found = lookup_of_Mem j q s.pending_requests unique m in
          numbers_differ {s = s} h mine (h.pending j q found)
            (λ e. absurd (ground (arith, ap (λ k. lookup k s.pending_requests) (time_out_id e)))))

  queued_left :
      (sub : Text) (q : ReconnectQueue)
      → lookup sub s.reconnect_queues ≡ some q
      → text_eq subdomain sub ≡ false
      → Memᴰ (q.grace_timer, grace_over sub) left
  queued_left sub q at different =
      let mine = h.queued sub q at in
      drained_timers-Mem subdomain s.pending_requests q.grace_timer (grace_over sub) _
        (drop_grace subdomain s q.grace_timer (grace_over sub) h mine (λ r found.
          numbers_differ {s = s} h mine (h.queued subdomain r found)
            (λ e. absurd (ground (arith, text_eq_iff subdomain sub, grace_subdomain e)))))
        (λ j p m same.
          numbers_differ {s = s} h mine
            (h.pending j p (lookup_of_Mem j p s.pending_requests unique m)) (λ e. cc))

  pub drain-IsTimed : IsTimed (drain_to_reconnect_queue subdomain s)
  unfolding drain_to_reconnect_queue
  drain-IsTimed = record {
    drawn = grown_drawn s h left left_old (grace_over subdomain);
    single = grown_single s h left left_old (grace_over subdomain);
    pending = λ id p at.
        let (found, different) = kept-lookup id subdomain p s.pending_requests unique at in
        Mem-append_left left ((s.next_timer, grace_over subdomain) ∷ [])
          (pending_left id p found different);
    queued = λ sub q at. elim (Bool-cases (text_eq subdomain sub)) [
      | inl same ↦
          let made : ReconnectQueue = record {
            entries =
                queued_entries (lookup subdomain s.reconnect_queues)
                ++ drained subdomain s.pending_requests;
            grace_timer = s.next_timer;
          } in
          let stored = lookup-put subdomain sub made s.reconnect_queues in
          let found : some made ≡ some q = ground arith in
          Mem-append_right left ((s.next_timer, grace_over subdomain) ∷ []) (
            Memᴰ.head
              (same_grace made q sub subdomain found (sym ((text_eq_iff subdomain sub).0 same))))
      | inr different ↦
          Mem-append_left left ((s.next_timer, grace_over subdomain) ∷ [])
            (queued_left sub q (rw (lookup-put, different) at at) different)
    ];
  }
