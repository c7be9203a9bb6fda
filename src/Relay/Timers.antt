-- ===== src/Relay/Timers.antt =====
-- Which timers remain when some are cleared, and what they stand for.
use compute_contract_referen.Base.{
  arith, ap, ◌≡◌, ◌≢◌, ℕ, true, false, Bool-cases, inl, inr, some, List, [], ◌∷◌, ◌==◌, Memᴰ, Text,
  text_eq, Dict, lookup,
}
use compute_contract_referen.Relay.{
  PendingRequest, ReconnectQueue, RelayState, Callback, time_out, grace_over, kept, drained_timers,
  clear_timer,
}

first_or_rest :
    {t u v : ℕ} {c d : Callback} {timers rest : List (ℕ × Callback)}
    → Memᴰ (t, c) ((v, d) ∷ rest)
    → v ≢ u
    → (Memᴰ (t, c) rest → Memᴰ (t, c) timers × (t ≢ u))
    → Memᴰ (t, c) ((v, d) ∷ timers) × (t ≢ u)
first_or_rest (Memᴰ.head e) other ih = (Memᴰ.head e, λ same. other (ground arith))
first_or_rest (Memᴰ.tail m) other ih = let (n, ne) = ih m in (Memᴰ.tail n, ne)

pub Mem-clear_timer :
    (u t : ℕ) (c : Callback) (timers : List (ℕ × Callback))
    → Memᴰ (t, c) (clear_timer u timers)
    → Memᴰ (t, c) timers × (t ≢ u)
unfolding clear_timer
Mem-clear_timer u t c [] m = elim m [ ]
Mem-clear_timer u t c ((v, d) ∷ timers) m = elim (Bool-cases (v == u)) [
  | inl same ↦ let (n, other) = Mem-clear_timer u t c timers (rw same at m) in (Memᴰ.tail n, other)
  | inr other ↦ first_or_rest (rw other at m) (ground arith) (λ n. Mem-clear_timer u t c timers n)
]

-- The timer is none of those of the subdomain's pending requests.
abbrev pub IsOther : Text → Dict PendingRequest → ℕ → Type 0
IsOther subdomain pending t =
    (id : Text) (p : PendingRequest)
    → Memᴰ (id, p) pending
    → text_eq p.subdomain subdomain ≡ true
    → t ≢ p.timer

IsOther-cons :
    (subdomain j : Text) (q : PendingRequest) (pending : Dict PendingRequest) (t : ℕ)
    → (text_eq q.subdomain subdomain ≡ true → t ≢ q.timer)
    → IsOther subdomain pending t
    → IsOther subdomain ((j, q) ∷ pending) t
IsOther-cons subdomain j q pending t h k id p (Memᴰ.head e) =
    let same : p ≡ q = ap (λ (x : Text × PendingRequest). x.1) e in rw same h
IsOther-cons subdomain j q pending t h k id p (Memᴰ.tail m) = k id p m

pub Mem-drained_timers :
    (subdomain : Text) (pending : Dict PendingRequest) (t : ℕ) (c : Callback)
    (timers : List (ℕ × Callback))
    → Memᴰ (t, c) (drained_timers subdomain pending timers)
    → Memᴰ (t, c) timers × IsOther subdomain pending t
unfolding drained_timers
Mem-drained_timers subdomain [] t c timers m = (m, λ id p n. elim n [ ])
Mem-drained_timers subdomain ((j, q) ∷ pending) t c timers m =
    elim (Bool-cases (text_eq q.subdomain subdomain)) [
      | inl same ↦
          let (n, others) =
            Mem-drained_timers subdomain pending t c (clear_timer q.timer timers) (rw same at m) in
          let (old, other) = Mem-clear_timer q.timer t c timers n in
          (old, IsOther-cons subdomain j q pending t (λ _. other) others)
      | inr different ↦
          let (old, others) = Mem-drained_timers subdomain pending t c timers (rw different at m) in
          (old, IsOther-cons subdomain j q pending t (λ same. cc) others)
    ]

pub lookup-kept :
    (id subdomain : Text) (p : PendingRequest) (pending : Dict PendingRequest)
    → lookup id pending ≡ some p
    → text_eq p.subdomain subdomain ≡ false
    → lookup id (kept subdomain pending) ≡ some p
unfolding lookup kept
lookup-kept id subdomain p [] h k = cc
lookup-kept id subdomain p ((j, q) ∷ pending) h k =
    ground (arith, lookup-kept id subdomain p pending)

-- A timer that has not fired stands for what waits: the pending request that it was set for, or the
-- queue.
abbrev pub Stands : RelayState → ℕ → Callback → Type 0
Stands s t (time_out id promise) =
    (p : PendingRequest) × (lookup id s.pending_requests ≡ some p)
    × (p.promise ≡ promise)
    × (p.timer ≡ t)
Stands s t (grace_over subdomain) =
    (q : ReconnectQueue) × (lookup subdomain s.reconnect_queues ≡ some q) × (q.grace_timer ≡ t)

abbrev pub AllStand : RelayState → Type 0
AllStand s = (t : ℕ) (c : Callback) → Memᴰ (t, c) s.timers → Stands s t c
