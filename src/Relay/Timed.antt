-- ===== src/Relay/Timed.antt =====
-- The converse of `Timers`: what waits in the relay has a timer that runs for it.
pub mod Moved
pub mod Drained
pub mod Reached
use compute_contract_referen.Base.{
  arith, ap, sym, subst, refl, ◌≡◌, ◌≢◌, ◌∙◌, ℕ, ◌+◌, ◌<◌, true, false, Bool, Bool-cases, inl, inr,
  Option, Option-cases, none, some, List, [], ◌∷◌, ◌++◌, ◌==◌, if◌then◌else◌, Memᴰ, Mem-append_left,
  Mem-append_right, Mem-snoc, Text, text_eq, text_eq_iff, Dict, lookup, has, put, delete,
  lookup-put, lookup-delete, lookup_absent, Unique, Result,
}
use compute_contract_referen.Relay.{
  PendingRequest, QueuedRelay, ReconnectQueue, RelayState, Callback, RelayError, RelayResult,
  time_out, grace_over, kept, drained_timers, clear_timer, without_grace, drain_to_reconnect_queue,
  send_request, send_all, flush_reconnect_queue, queued_entries, drained,
}
use compute_contract_referen.Relay.Timers.{Mem-clear_timer, Mem-drained_timers, IsOther}

-- Every timer has a number that was drawn, no number stands for two callbacks, each pending request
-- has its time-out and each reconnect queue its grace timer.
pub record IsTimed (s : RelayState) : Type 0 where
  pub drawn : (t : ℕ) (c : Callback) → Memᴰ (t, c) s.timers → t < s.next_timer
  pub single : (t : ℕ) (c d : Callback) → Memᴰ (t, c) s.timers → Memᴰ (t, d) s.timers → c ≡ d
  pub pending :
      (id : Text) (p : PendingRequest)
      → lookup id s.pending_requests ≡ some p
      → Memᴰ (p.timer, time_out id p.promise) s.timers
  pub queued :
      (subdomain : Text) (q : ReconnectQueue)
      → lookup subdomain s.reconnect_queues ≡ some q
      → Memᴰ (q.grace_timer, grace_over subdomain) s.timers

pub clear_timer-Mem :
    (u t : ℕ) (c : Callback) (timers : List (ℕ × Callback))
    → Memᴰ (t, c) timers
    → t ≢ u
    → Memᴰ (t, c) (clear_timer u timers)
unfolding clear_timer
clear_timer-Mem u t c [] m other = elim m [ ]
clear_timer-Mem u t c ((v, d) ∷ timers) m other = elim (Bool-cases (v == u)) [
  | inl same ↦ elim m [
    | Memᴰ.head e ↦ absurd (other (ground arith))
    | Memᴰ.tail m' ↦ rw same (clear_timer-Mem u t c timers m' other)
  ]
  | inr differs ↦ elim m [
    | Memᴰ.head e ↦ rw differs (Memᴰ.head e)
    | Memᴰ.tail m' ↦ rw differs (Memᴰ.tail (clear_timer-Mem u t c timers m' other))
  ]
]

pub drained_timers-Mem :
    (subdomain : Text) (pending : Dict PendingRequest) (t : ℕ) (c : Callback)
    (timers : List (ℕ × Callback))
    → Memᴰ (t, c) timers
    → IsOther subdomain pending t
    → Memᴰ (t, c) (drained_timers subdomain pending timers)
unfolding drained_timers
drained_timers-Mem subdomain [] t c timers m others = m
drained_timers-Mem subdomain ((j, q) ∷ pending) t c timers m others =
    elim (Bool-cases (text_eq q.subdomain subdomain)) [
      | inl same ↦ rw same (
          drained_timers-Mem subdomain pending t c (clear_timer q.timer timers)
            (clear_timer-Mem q.timer t c timers m (others j q (Memᴰ.head refl) same))
            (λ id p n. others id p (Memᴰ.tail n)))
      | inr different ↦
          rw different (
            drained_timers-Mem subdomain pending t c timers m (λ id p n. others id p (Memᴰ.tail n)))
    ]

pub lookup_of_Mem :
    (id : Text) (p : PendingRequest) (pending : Dict PendingRequest)
    → Unique pending
    → Memᴰ (id, p) pending
    → lookup id pending ≡ some p
unfolding lookup
lookup_of_Mem id p [] u m = elim m [ ]
lookup_of_Mem id p ((j, q) ∷ pending) (new, u) (Memᴰ.head e) =
    let key : id ≡ j = ap (λ (x : Text × PendingRequest). x.0) e in
    let value : p ≡ q = ap (λ (x : Text × PendingRequest). x.1) e in
    rw ((text_eq_iff j id).1 (sym key)) (ap some (sym value))
lookup_of_Mem id p ((j, q) ∷ pending) (new, u) (Memᴰ.tail m) =
    let later = lookup_of_Mem id p pending u m in
    elim (Bool-cases (text_eq j id)) [
      | inl same ↦
          let key : j ≡ id = (text_eq_iff j id).0 same in
          let gone = lookup_absent j pending new in
          absurd (ground (arith, ap (λ k. lookup k pending) key))
      | inr other ↦ rw other later
    ]

lookup-kept_absent :
    (id subdomain : Text) (pending : Dict PendingRequest)
    → has id pending ≡ false
    → lookup id (kept subdomain pending) ≡ none
unfolding has lookup kept
lookup-kept_absent id subdomain [] h = refl
lookup-kept_absent id subdomain ((j, p) ∷ pending) h =
    ground (arith, lookup-kept_absent id subdomain pending)

pub kept-lookup :
    (id subdomain : Text) (p : PendingRequest) (pending : Dict PendingRequest)
    → Unique pending
    → lookup id (kept subdomain pending) ≡ some p
    → (lookup id pending ≡ some p) × (text_eq p.subdomain subdomain ≡ false)
unfolding lookup kept
kept-lookup id subdomain p [] u h = cc
kept-lookup id subdomain p ((j, q) ∷ pending) (new, u) h =
    elim (Bool-cases (text_eq q.subdomain subdomain)) [
      | inl same ↦ elim (Bool-cases (text_eq j id)) [
        | inl here ↦
            let key : j ≡ id = (text_eq_iff j id).0 here in
            let gone = lookup-kept_absent id subdomain pending (rw key at new) in
            absurd (ground arith)
        | inr later ↦ ground (arith, kept-lookup id subdomain p pending u)
      ]
      | inr different ↦ elim (Bool-cases (text_eq j id)) [
        | inl here ↦ ground arith
        | inr later ↦ ground (arith, kept-lookup id subdomain p pending u)
      ]
    ]

pair_timer : {t u : ℕ} {c d : Callback} → ◌≡◌ {A = ℕ × Callback} (t, c) (u, d) → (t ≡ u) × (c ≡ d)
pair_timer e = (ap (λ (x : ℕ × Callback). x.0) e, ap (λ (x : ℕ × Callback). x.1) e)

-- Timers that were there, and one with the next number.
module _ (s : RelayState) (h : IsTimed s) (timers : List (ℕ × Callback))
    (old : (t : ℕ) (c : Callback) → Memᴰ (t, c) timers → Memᴰ (t, c) s.timers)
    (new : Callback) where
  pub grown_drawn :
      (t : ℕ) (c : Callback)
      → Memᴰ (t, c) (timers ++ (s.next_timer, new) ∷ [])
      → t < s.next_timer + 1
  grown_drawn t c m = elim (Mem-snoc timers m) [
    | inl m' ↦ omega (arith, h.drawn t c (old t c m'))
    | inr e ↦ omega (arith, (pair_timer e).0)
  ]

  not_next : (t : ℕ) (c : Callback) → Memᴰ (t, c) timers → t ≢ s.next_timer
  not_next t c m e = omega (arith, h.drawn t c (old t c m), e)

  pub grown_single :
      (t : ℕ) (c d : Callback)
      → Memᴰ (t, c) (timers ++ (s.next_timer, new) ∷ [])
      → Memᴰ (t, d) (timers ++ (s.next_timer, new) ∷ [])
      → c ≡ d
  grown_single t c d m n = elim (Mem-snoc timers m) [
    | inl m' ↦ elim (Mem-snoc timers n) [
      | inl n' ↦ h.single t c d (old t c m') (old t d n')
      | inr e ↦ absurd (not_next t c m' (pair_timer e).0)
    ]
    | inr e ↦ elim (Mem-snoc timers n) [
      | inl n' ↦ absurd (not_next t d n' (pair_timer e).0)
      | inr f ↦ (pair_timer e).1 ∙ sym (pair_timer f).1
    ]
  ]

pub time_out_id : {id j : Text} {p q : ℕ} → time_out id p ≡ time_out j q → id ≡ j
time_out_id {id} e = ap (λ (c : Callback). elim c [ time_out k _ ↦ k | grace_over _ ↦ id ]) e

pub grace_subdomain : {a b : Text} → grace_over a ≡ grace_over b → a ≡ b
grace_subdomain {a} e = ap (λ (c : Callback). elim c [ time_out _ _ ↦ a | grace_over k ↦ k ]) e

kinds_differ : {id a : Text} {p : ℕ} → time_out id p ≢ grace_over a
kinds_differ e = cc

pub numbers_differ :
    {s : RelayState} {t u : ℕ} {c d : Callback}
    → IsTimed s
    → Memᴰ (t, c) s.timers
    → Memᴰ (u, d) s.timers
    → c ≢ d
    → t ≢ u
numbers_differ {s} {t} {u} {c} {d} h m n other e =
    other (h.single t c d m (subst (λ k. Memᴰ (k, d) s.timers) (sym e) n))
