-- ===== src/Relay/Weights.antt =====
-- The requests that wait, weighed by their ids and promises: a weight that picks one promise or one
-- id counts how often it waits.
use compute_contract_referen.Base.{
  arith, ◌≡◌, ℕ, ◌+◌, false, some, List, [], ◌∷◌, ◌++◌, Text, text_eq_iff, Dict, lookup, has, put,
  delete, Unique, delete_absent,
}
use compute_contract_referen.Relay.{
  PendingRequest, QueuedRelay, ReconnectQueue, RelayState, kept, drained, queued_entries,
}

module _ (w : Text → ℕ → ℕ) where
  unfoldable pub weigh_pending : Dict PendingRequest → ℕ
  weigh_pending [] = 0
  weigh_pending ((id, p) ∷ pending) = w id p.promise + weigh_pending pending

  unfoldable pub weigh_entries : List QueuedRelay → ℕ
  weigh_entries [] = 0
  weigh_entries (e ∷ entries) = w e.request_id e.promise + weigh_entries entries

  unfoldable pub weigh_queues : Dict ReconnectQueue → ℕ
  unfolding weigh_entries
  weigh_queues [] = 0
  weigh_queues ((subdomain, queue) ∷ queues) = weigh_entries queue.entries + weigh_queues queues

  -- The weight of all that waits, pending or queued.
  unfoldable pub waiting : RelayState → ℕ
  unfolding weigh_pending weigh_queues
  waiting s = weigh_pending s.pending_requests + weigh_queues s.reconnect_queues

  pub weigh_entries-append :
      (xs ys : List QueuedRelay) → weigh_entries (xs ++ ys) ≡ weigh_entries xs + weigh_entries ys
  unfolding weigh_entries
  weigh_entries-append [] ys = omega arith
  weigh_entries-append (x ∷ xs) ys = omega (arith, weigh_entries-append xs ys)

  pub weigh_drained :
      (subdomain : Text) (pending : Dict PendingRequest)
      → weigh_pending (kept subdomain pending) + weigh_entries (drained subdomain pending)
        ≡ weigh_pending pending
  unfolding weigh_pending weigh_entries kept drained
  weigh_drained subdomain [] = omega arith
  weigh_drained subdomain ((id, p) ∷ pending) = ground (arith, weigh_drained subdomain pending)

  pub weigh_queues-put :
      (k : Text) (queue : ReconnectQueue) (queues : Dict ReconnectQueue)
      → weigh_queues (put k queue queues) + weigh_entries (queued_entries (lookup k queues))
        ≡ weigh_queues queues + weigh_entries queue.entries
  unfolding weigh_queues put lookup
  weigh_queues-put k queue [] = omega arith
  weigh_queues-put k queue ((j, q) ∷ queues) = ground (arith, weigh_queues-put k queue queues)

  pub weigh_queues-delete :
      (k : Text) (queues : Dict ReconnectQueue)
      → Unique queues
      → weigh_queues (delete k queues) + weigh_entries (queued_entries (lookup k queues))
        ≡ weigh_queues queues
  unfolding weigh_queues delete lookup
  weigh_queues-delete k [] u = omega arith
  weigh_queues-delete k ((j, q) ∷ queues) (new, u) =
      ground (arith, weigh_queues-delete k queues u, delete_absent k queues, text_eq_iff j k)

  pub weigh_pending-put :
      (id : Text) (p : PendingRequest) (pending : Dict PendingRequest)
      → has id pending ≡ false
      → weigh_pending (put id p pending) ≡ weigh_pending pending + w id p.promise
  unfolding weigh_pending put has
  weigh_pending-put id p [] h = omega arith
  weigh_pending-put id p ((j, q) ∷ pending) h = ground (arith, weigh_pending-put id p pending)

  pub weigh_pending-delete :
      (id : Text) (p : PendingRequest) (pending : Dict PendingRequest)
      → Unique pending
      → lookup id pending ≡ some p
      → weigh_pending (delete id pending) + w id p.promise ≡ weigh_pending pending
  unfolding weigh_pending delete lookup
  weigh_pending-delete id p [] u h = cc
  weigh_pending-delete id p ((j, q) ∷ pending) (new, u) h =
      ground
        (arith, weigh_pending-delete id p pending u, delete_absent id pending, text_eq_iff j id)
