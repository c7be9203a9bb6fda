-- ===== src/Relay/Consistent.antt =====
-- The relay's invariant, and that the operations on requests keep it.
use compute_contract_referen.Base.{
  arith, refl, ◌≡◌, ◌≤◌, ℕ, ◌+◌, false, Bool-cases, inl, inr, List, [], ◌∷◌, if◌then◌else◌, ltb,
  Text, text_eq, Dict, has, Unique, Unique-put,
}
use compute_contract_referen.Relay.{
  PendingRequest, QueuedRelay, ActiveSubscription, Callback, time_out, grace_over, RelayState,
  drain_to_reconnect_queue, send_request, send_all, kept,
}
use compute_contract_referen.Relay.Weights.{waiting}
use compute_contract_referen.Relay.Conserved.{
  times_settled, of_promise, of_id, drain_waiting, Distinct, Distinct-head, Distinct-tail,
}
use compute_contract_referen.Relay.Timers.{Stands, AllStand}
use compute_contract_referen.Relay.Standing.{drain-AllStand, send_request-AllStand}

pub record IsConsistent (s : RelayState) : Type 0 where
  -- No request id waits twice.
  pub ids : (id : Text) → waiting (of_id id) s ≤ 1
  pub pending_unique : Unique s.pending_requests
  pub queues_unique : Unique s.reconnect_queues
  -- Each promise that was made either waits in one place or has settled once, and no other.
  pub promises :
      (p : ℕ)
      → waiting (of_promise p) s + times_settled p s.settled
        ≡ (if ltb p s.next_promise then 1 else 0)
  pub standing : AllStand s

-- The subscribers, the subscriptions and what was sent play no part.
pub IsConsistent-frame :
    (s : RelayState) (subscribers : Dict ℕ) (subscriptions : Dict ActiveSubscription)
    (sent : List (ℕ × Text)) (closed : List (ℕ × ℕ))
    → IsConsistent s
    → IsConsistent (record s {
      subscribers = subscribers;
      active_subscriptions = subscriptions;
      sent = sent;
      closed = closed;
    })
unfolding waiting
IsConsistent-frame s subscribers subscriptions sent closed c = record {
  ids = c.ids;
  pending_unique = c.pending_unique;
  queues_unique = c.queues_unique;
  promises = c.promises;
  standing = λ t b m. stands t b (c.standing t b m);
}
  where
    stands :
        (t : ℕ) (b : Callback)
        → Stands s t b
        → Stands
            (record s {
              subscribers = subscribers;
              active_subscriptions = subscriptions;
              sent = sent;
              closed = closed;
            })
            t
            b
    stands t (time_out id p) h = h
    stands t (grace_over sub) h = h

has-kept :
    (id subdomain : Text) (pending : Dict PendingRequest)
    → has id pending ≡ false
    → has id (kept subdomain pending) ≡ false
unfolding has kept
has-kept id subdomain [] h = refl
has-kept id subdomain ((j, p) ∷ pending) h = ground (arith, has-kept id subdomain pending)

Unique-kept :
    (subdomain : Text) (pending : Dict PendingRequest)
    → Unique pending
    → Unique (kept subdomain pending)
unfolding kept
Unique-kept subdomain [] u = tt
Unique-kept subdomain ((j, p) ∷ pending) (new, u) =
    elim (Bool-cases (text_eq p.subdomain subdomain)) [
      | inl same ↦ rw same (Unique-kept subdomain pending u)
      | inr other ↦ rw other (has-kept j subdomain pending new, Unique-kept subdomain pending u)
    ]

pub drain-IsConsistent :
    (subdomain : Text) (s : RelayState)
    → IsConsistent s
    → IsConsistent (drain_to_reconnect_queue subdomain s)
unfolding drain_to_reconnect_queue
drain-IsConsistent subdomain s c = record {
  ids = λ id. rw (drain_waiting (of_id id) subdomain s) (c.ids id);
  pending_unique = Unique-kept subdomain s.pending_requests c.pending_unique;
  queues_unique = Unique-put subdomain _ s.reconnect_queues c.queues_unique;
  promises = λ p. rw (drain_waiting (of_promise p) subdomain s) (c.promises p);
  standing = drain-AllStand subdomain s c.standing;
}

-- What sending the entries keeps.
pub record Sends (s t : RelayState) : Type 0 where
  pub unique : Unique t.pending_requests
  pub stands : AllStand t
  pub queues : t.reconnect_queues ≡ s.reconnect_queues
  pub settles : t.settled ≡ s.settled
  pub next : t.next_promise ≡ s.next_promise

pub send_all-Sends :
    (subdomain : Text) (ws : ℕ) (entries : List QueuedRelay) (s : RelayState)
    → Distinct s.pending_requests entries
    → Unique s.pending_requests
    → AllStand s
    → Sends s (send_all subdomain ws entries s)
unfolding send_all
send_all-Sends subdomain ws [] s d u a = record {
  unique = u;
  stands = a;
  queues = refl;
  settles = refl;
  next = refl;
}
send_all-Sends subdomain ws (e ∷ entries) s d u a =
    let fresh = Distinct-head subdomain ws e entries s.pending_requests d in
    let rest =
      send_all-Sends subdomain ws entries (send_request subdomain ws e s)
        (Distinct-tail subdomain ws e entries s d)
        (unfold send_request in Unique-put e.request_id _ s.pending_requests u)
        (send_request-AllStand subdomain ws e s fresh a) in
    unfold send_request in
    record {
      unique = rest.unique;
      stands = rest.stands;
      queues = rest.queues;
      settles = rest.settles;
      next = rest.next;
    }
