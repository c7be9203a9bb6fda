-- ===== src/Relay/Reconnect.antt =====
-- What a subscriber's disconnection and its return do to the requests that wait.
use compute_contract_referen.Base.{
  arith, subst, refl, sym, Bool-cases, some, false, text_eq, if◌then◌else◌, Dict, ◌≡◌, ◌↔◌, ℕ, Bool,
  inl, inr, Option-cases, none, List, [], ◌∷◌, ◌++◌, Text, lookup, put, delete, lookup-delete,
  lookup-put_self, ◌∙◌, append_assoc, append-nil, ap, text_eq_refl, err,
}
use compute_contract_referen.Relay.{
  no_subscriber, PendingRequest, RelayResult, QueuedRelay, RelayState, queued_entries, drained,
  drain_to_reconnect_queue, send_request, send_all, flush_reconnect_queue, open_subscriber,
  dispatch_request, handle_response, clear_timer, reject_subscriber_subscriptions,
}
use compute_contract_referen.Relay.Server.{subscriber_connected, subscriber_closed}

-- The frames of the entries, each for the socket.
unfoldable pub frames_to : ℕ → List QueuedRelay → List (ℕ × Text)
frames_to ws [] = []
frames_to ws (e ∷ entries) = (ws, e.frame) ∷ frames_to ws entries

-- The frames of the requests that are pending for the subscriber.
abbrev pub frames_pending : Text → Dict PendingRequest → List Text
frames_pending subdomain [] = []
frames_pending subdomain ((_, p) ∷ pending) =
    (if text_eq p.subdomain subdomain then p.frame ∷ [] else []) ++ frames_pending subdomain pending

abbrev pub frames_queued : List QueuedRelay → List Text
frames_queued [] = []
frames_queued (e ∷ entries) = e.frame ∷ frames_queued entries

-- Each text with the socket.
abbrev pub each_to : ℕ → List Text → List (ℕ × Text)
each_to ws [] = []
each_to ws (frame ∷ frames) = (ws, frame) ∷ each_to ws frames

frames_to-append :
    (ws : ℕ) (entries others : List QueuedRelay)
    → frames_to ws (entries ++ others) ≡ each_to ws (frames_queued entries) ++ frames_to ws others
unfolding frames_to
frames_to-append ws [] others = refl
frames_to-append ws (e ∷ entries) others =
    ap (λ l. (ws, e.frame) ∷ l) (frames_to-append ws entries others)

frames_to-drained :
    (ws : ℕ) (subdomain : Text) (pending : Dict PendingRequest)
    → frames_to ws (drained subdomain pending) ≡ each_to ws (frames_pending subdomain pending)
unfolding frames_to drained
frames_to-drained ws subdomain [] = refl
frames_to-drained ws subdomain ((id, p) ∷ pending) =
    elim (Bool-cases (text_eq p.subdomain subdomain)) [
      | inl its ↦
          rw (its, drained) (ap (λ l. (ws, p.frame) ∷ l) (frames_to-drained ws subdomain pending))
      | inr other ↦ rw (other, drained) (frames_to-drained ws subdomain pending)
    ]

send_all-sent :
    (subdomain : Text) (ws : ℕ) (entries : List QueuedRelay) (s : RelayState)
    → (send_all subdomain ws entries s).sent ≡ s.sent ++ frames_to ws entries
unfolding send_all frames_to send_request
send_all-sent subdomain ws [] s = sym (append-nil s.sent)
send_all-sent subdomain ws (e ∷ entries) s =
    send_all-sent subdomain ws entries (send_request subdomain ws e s)
    ∙ append_assoc s.sent ((ws, e.frame) ∷ []) (frames_to ws entries)

flush-sent :
    (subdomain : Text) (ws : ℕ) (s : RelayState)
    → (flush_reconnect_queue subdomain ws s).sent
      ≡ s.sent ++ frames_to ws (queued_entries (lookup subdomain s.reconnect_queues))
unfolding flush_reconnect_queue frames_to
flush-sent subdomain ws s = elim (Option-cases (lookup subdomain s.reconnect_queues)) [
  | inl nothing ↦ rw (nothing, flush_reconnect_queue) (sym (append-nil s.sent))
  | inr (queue, e) ↦
      rw (e, flush_reconnect_queue)
        (send_all-sent subdomain ws queue.entries (record s {
          timers = clear_timer queue.grace_timer s.timers;
          reconnect_queues = delete subdomain s.reconnect_queues;
        }))
]

drain-queue :
    (subdomain : Text) (s : RelayState)
    → queued_entries (lookup subdomain (drain_to_reconnect_queue subdomain s).reconnect_queues)
      ≡ queued_entries (lookup subdomain s.reconnect_queues) ++ drained subdomain s.pending_requests
unfolding drain_to_reconnect_queue
drain-queue subdomain s = rw (lookup-put_self subdomain _ s.reconnect_queues) refl

replayed_entries :
    (is_open : ℕ → Bool) (subdomain : Text) (ws : ℕ) (registered : Text) (s : RelayState)
    → (subscriber_connected subdomain ws registered (subscriber_closed is_open subdomain s)).sent
      ≡ (s.sent
          ++ frames_to ws (
              queued_entries (lookup subdomain s.reconnect_queues)
              ++ drained subdomain s.pending_requests))
        ++ (ws, registered) ∷ []
unfolding subscriber_connected subscriber_closed reject_subscriber_subscriptions
replayed_entries is_open subdomain ws registered s =
    let gone : RelayState = record s { subscribers = delete subdomain s.subscribers } in
    let back : RelayState = record (subscriber_closed is_open subdomain s) {
      subscribers = put subdomain ws (subscriber_closed is_open subdomain s).subscribers;
    } in
    let sent : back.sent ≡ s.sent = unfold drain_to_reconnect_queue in refl in
    ap (λ (l : List (ℕ × Text)). l ++ (ws, registered) ∷ [])
      (flush-sent subdomain ws back ∙ rw (drain-queue subdomain gone, sent) refl)

-- When a subscriber's socket closes and the subscriber then connects with another, the new socket is
-- sent, after all that was sent before, first the frames that were queued already, then the frame of
-- each request that was pending for the subscriber, in the order in which they wait, and then the
-- acknowledgement of its registration; nothing else is sent and nothing is dropped.
pub replayed_in_order :
    (is_open : ℕ → Bool) (subdomain : Text) (ws : ℕ) (registered : Text) (s : RelayState)
    → (subscriber_connected subdomain ws registered (subscriber_closed is_open subdomain s)).sent
      ≡ (s.sent
          ++ (each_to ws (frames_queued (queued_entries (lookup subdomain s.reconnect_queues)))
              ++ each_to ws (frames_pending subdomain s.pending_requests)))
        ++ (ws, registered) ∷ []
replayed_in_order is_open subdomain ws registered s =
    let queued = queued_entries (lookup subdomain s.reconnect_queues) in
    let frames =
      frames_to-append ws queued (drained subdomain s.pending_requests)
      ∙ ap (λ l. each_to ws (frames_queued queued) ++ l)
          (frames_to-drained ws subdomain s.pending_requests) in
    replayed_entries is_open subdomain ws registered s
    ∙ ap (λ (l : List (ℕ × Text)). (s.sent ++ l) ++ (ws, registered) ∷ []) frames

unknown_response :
    (id : Text) (result : RelayResult) (s : RelayState)
    → lookup id s.pending_requests ≡ none
    → handle_response id result s ≡ s
unfolding handle_response
unknown_response id result s unknown = rw (unknown, handle_response) refl

response-forgets :
    (id : Text) (result : RelayResult) (s : RelayState)
    → lookup id (handle_response id result s).pending_requests ≡ none
unfolding handle_response
response-forgets id result s = elim (Option-cases (lookup id s.pending_requests)) [
  | inl unknown ↦ rw (unknown, handle_response) unknown
  | inr (p, e) ↦
      rw (e, handle_response) (lookup-delete id id s.pending_requests ∙ rw (text_eq_refl id) refl)
]

-- A response settles its request once: another response with the same id, whatever it says, changes
-- nothing.
pub second_response_ignored :
    (id : Text) (first second : RelayResult) (s : RelayState)
    → handle_response id second (handle_response id first s) ≡ handle_response id first s
second_response_ignored id first second s =
    unknown_response id second (handle_response id first s) (response-forgets id first s)

-- No socket that is open is registered for the subdomain.
abbrev pub NoneOpen : (ℕ → Bool) → Text → RelayState → Type 0
NoneOpen is_open subdomain s =
    (ws : ℕ) → lookup subdomain s.subscribers ≡ some ws → is_open ws ≡ false

open_subscriber-NoneOpen :
    (is_open : ℕ → Bool) (subdomain : Text) (s : RelayState)
    → (open_subscriber is_open subdomain s ≡ none) ↔ NoneOpen is_open subdomain s
unfolding open_subscriber
open_subscriber-NoneOpen is_open subdomain s =
    elim (Option-cases (lookup subdomain s.subscribers)) [
      | inl nobody ↦ rw (nobody, open_subscriber) (λ h ws e. cc, λ h. refl)
      | inr (ws, e) ↦ elim (Bool-cases (is_open ws)) [
        | inl up ↦ rw (e, open_subscriber, up) (λ h v e'. cc, λ h. let down = h ws refl in cc)
        | inr down ↦
            rw (e, open_subscriber, down)
              (
                λ h v e'.
                    let same : ws ≡ v = ground arith in subst (λ u. is_open u ≡ false) same down,
                λ h. refl,
              )
      ]
    ]

-- `dispatchRequest` throws, and leaves the state as it was, exactly when the socket that is registered
-- for the subdomain, if any, is not open and the subdomain has no reconnect queue.
pub dispatch_throws_iff :
    (is_open : ℕ → Bool) (subdomain id frame : Text) (s : RelayState)
    → (dispatch_request is_open subdomain id frame s ≡ (err (no_subscriber subdomain), s))
      ↔ NoneOpen is_open subdomain s × (lookup subdomain s.reconnect_queues ≡ none)
unfolding dispatch_request
dispatch_throws_iff is_open subdomain id frame s =
    let opened = open_subscriber-NoneOpen is_open subdomain s in
    elim (Option-cases (open_subscriber is_open subdomain s)) [
      | inr (ws, e) ↦ (rw (e, dispatch_request) (λ h. cc), λ h. let closed = opened.1 h.0 in cc)
      | inl closed ↦ elim (Option-cases (lookup subdomain s.reconnect_queues)) [
        | inr (queue, e) ↦ rw (closed, e, dispatch_request) (λ h. cc, λ h. let nothing = h.1 in cc)
        | inl nothing ↦
            rw (closed, nothing, dispatch_request) (λ h. (opened.0 closed, refl), λ h. refl)
      ]
    ]
