-- ===== src/Relay/Steps.antt =====
-- The relay as a step relation: the events that src/typescript/lib/hono-factory-xrpc-relay/mod.ts
-- reacts to, in any order, each with its own view of which sockets are open.
use compute_contract_referen.Base.{
  arith, refl, ◌≡◌, ◌<◌, ◌⊎◌, ℕ, zero, suc, ◌+◌, Bool, inl, inr, lt→ltb, Memᴰ, Text, delete,
}
use compute_contract_referen.Relay.{Callback, RelayState, empty_relay, dispatch_request, fire}
use compute_contract_referen.Relay.Weights.{waiting}
use compute_contract_referen.Relay.Conserved.{times_settled, of_promise, of_id}
use compute_contract_referen.Relay.Timers.{Stands}
use compute_contract_referen.Relay.Consistent.{IsConsistent, IsConsistent-frame}
use compute_contract_referen.Relay.Answered.{fire-IsConsistent, dispatch-IsConsistent}
use compute_contract_referen.Relay.Server.{
  subscriber_connected, subscriber_closed, Message, subscriber_message, caller_opened,
  caller_closed, caller_failed,
}
use compute_contract_referen.Relay.Handlers.{
  connected-IsConsistent, disconnected-IsConsistent, message-IsConsistent, subscribed-IsConsistent,
  left-IsConsistent,
}

-- A request's id is new among those that wait, as the ids that the server draws are.
pub data Step : RelayState → RelayState → Type 0 where
  connect :
      {s : RelayState}
      → (subdomain : Text) → (ws : ℕ) → (registered : Text)
      → Step s (subscriber_connected subdomain ws registered s)
  disconnect :
      {s : RelayState}
      → (is_open : ℕ → Bool) → (subdomain : Text) → Step s (subscriber_closed is_open subdomain s)
  receive :
      {s : RelayState}
      → (is_open : ℕ → Bool) → (m : Message) → Step s (subscriber_message is_open m s)
  dispatch :
      {s : RelayState}
      → (is_open : ℕ → Bool) → (subdomain id frame : Text) → waiting (of_id id) s ≡ 0
      → Step s (dispatch_request is_open subdomain id frame s).1
  expire : {s : RelayState} → (t : ℕ) → (b : Callback) → Memᴰ (t, b) s.timers → Step s (fire t b s)
  subscribe :
      {s : RelayState}
      → (is_open : ℕ → Bool) → (subdomain id nsid : Text) → (caller : ℕ) → (frame : Text)
      → Step s (caller_opened is_open subdomain id nsid caller frame s)
  leave :
      {s : RelayState}
      → (is_open : ℕ → Bool) → (id cancel : Text) → Step s (caller_closed is_open id cancel s)
  fail : {s : RelayState} → (id : Text) → Step s (caller_failed id s)

pub data Reach : RelayState → Type 0 where
  start : Reach empty_relay
  next : {s t : RelayState} → Reach s → Step s t → Reach t

empty-IsConsistent : IsConsistent empty_relay
unfolding waiting times_settled
empty-IsConsistent = record {
  ids = λ id. omega arith;
  pending_unique = tt;
  queues_unique = tt;
  promises = λ p. ground arith;
  standing = λ t b m. elim m [ ];
}

Step-IsConsistent : {s t : RelayState} → Step s t → IsConsistent s → IsConsistent t
Step-IsConsistent {s} (connect subdomain ws registered) c =
    connected-IsConsistent subdomain ws registered s c
Step-IsConsistent {s} (disconnect is_open subdomain) c =
    disconnected-IsConsistent is_open subdomain s c
Step-IsConsistent {s} (receive is_open m) c = message-IsConsistent is_open m s c
Step-IsConsistent {s} (dispatch is_open subdomain id frame fresh) c =
    dispatch-IsConsistent is_open subdomain id frame s fresh c
Step-IsConsistent {s} (expire t b m) c = fire-IsConsistent t b s m c
Step-IsConsistent {s} (subscribe is_open subdomain id nsid caller frame) c =
    subscribed-IsConsistent is_open subdomain id nsid caller frame s c
Step-IsConsistent {s} (leave is_open id cancel) c = left-IsConsistent is_open id cancel s c
Step-IsConsistent {s} (fail id) c =
    unfold caller_failed in
    IsConsistent-frame s s.subscribers (delete id s.active_subscriptions) s.sent s.closed c

pub Reach-IsConsistent : {s : RelayState} → Reach s → IsConsistent s
Reach-IsConsistent start = empty-IsConsistent
Reach-IsConsistent (next r step) = Step-IsConsistent step (Reach-IsConsistent r)

-- In every state that the relay reaches, a promise that it made waits in exactly one place, pending
-- or in a reconnect queue, and has not settled, or it has settled exactly once and waits nowhere.
pub promises_settle_once :
    {s : RelayState}
    → Reach s
    → (p : ℕ) → p < s.next_promise
    → (waiting (of_promise p) s ≡ 1) × (times_settled p s.settled ≡ 0)
      ⊎ (waiting (of_promise p) s ≡ 0) × (times_settled p s.settled ≡ 1)
promises_settle_once {s} r p made =
    let e : waiting (of_promise p) s + times_settled p s.settled ≡ 1 =
      rw (lt→ltb p s.next_promise made) at ((Reach-IsConsistent r).promises p) in
    one_of (waiting (of_promise p) s) (times_settled p s.settled) e
  where
    one_of : (a b : ℕ) → a + b ≡ 1 → (a ≡ 1) × (b ≡ 0) ⊎ (a ≡ 0) × (b ≡ 1)
    one_of zero b e = inr (refl, omega (arith, e))
    one_of (suc a) b e = inl (omega (arith, e), omega (arith, e))

-- In every state that the relay reaches, a timer that has not fired stands for something that still
-- waits: the pending request of its id with the promise and the timer it was set for, or the
-- reconnect queue that has it as its grace timer. So no stale timer settles a later request.
pub timers_stand :
    {s : RelayState} → Reach s → (t : ℕ) (b : Callback) → Memᴰ (t, b) s.timers → Stands s t b
timers_stand r = (Reach-IsConsistent r).standing
