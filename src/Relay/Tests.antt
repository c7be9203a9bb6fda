-- ===== src/Relay/Tests.antt =====
-- A concrete run of the relay: a subscriber connects, a request goes to it, it disconnects and comes
-- back.
use compute_contract_referen.Base.{
  arith, refl, ◌≡◌, ◌⊎◌, ◌↔◌, ◌<◌, ℕ, Bool, true, false, none, some, List, [], ◌∷◌, ◌++◌, Memᴰ,
  Text, codes, lookup, Result, ok, err,
}
use compute_contract_referen.Relay.{
  no_subscriber, RelayError, RelayResult, RelayState, Callback, fire, time_out, empty_relay,
  queued_entries, dispatch_request,
}
use compute_contract_referen.Relay.Weights.{waiting}
use compute_contract_referen.Relay.Conserved.{times_settled, of_promise}
use compute_contract_referen.Relay.Timers.{Stands}
use compute_contract_referen.Relay.Server.{subscriber_connected, subscriber_closed}
use compute_contract_referen.Relay.Steps.{
  connect, dispatch, Step, Reach, start, next, promises_settle_once, timers_stand,
}
use compute_contract_referen.Relay.Timed.Reached.{for_response, waiting_settles}
use compute_contract_referen.Relay.Reconnect.{
  NoneOpen, each_to, frames_queued, frames_pending, replayed_in_order, dispatch_throws_iff,
}
use compute_contract_referen.Base.{starts_with, ◌≢◌, Dict, some}
use compute_contract_referen.Relay.Nonces.{Issued, RegistrationPayload, verify}
use compute_contract_referen.Relay.Registration.{check_registration, check_registration-IsAccepted}
use compute_contract_referen.Relay.Nonces.Accepted.{IsAccepted, verify-IsAccepted}
use compute_contract_referen.Relay.Nonces.Single.{verifying, apply_events, nonce_used_once}

abbrev all_open : ℕ → Bool
all_open ws = true

abbrev connected : RelayState
connected = subscriber_connected (codes "k") 5 (codes "registered") empty_relay

abbrev dispatched : RelayState
dispatched = (dispatch_request all_open (codes "k") (codes "id") (codes "frame") connected).1

dispatched-Reach : Reach dispatched
unfolding waiting subscriber_connected
dispatched-Reach =
    next (next start (connect (codes "k") 5 (codes "registered")))
      (dispatch all_open (codes "k") (codes "id") (codes "frame") refl)

promises_settle_once_example :
    (waiting (of_promise 0) dispatched ≡ 1) × (times_settled 0 dispatched.settled ≡ 0)
    ⊎ (waiting (of_promise 0) dispatched ≡ 0) × (times_settled 0 dispatched.settled ≡ 1)
unfolding dispatch_request subscriber_connected compute_contract_referen.Base.text_eq
promises_settle_once_example = promises_settle_once dispatched-Reach 0 (omega arith)

timers_stand_example : Stands dispatched 0 (time_out (codes "id") 0)
unfolding dispatch_request subscriber_connected compute_contract_referen.Base.text_eq
timers_stand_example = timers_stand dispatched-Reach 0 (time_out (codes "id") 0) (Memᴰ.head refl)

waiting_settles_example :
    (t : ℕ) × (c : Callback) × Memᴰ (t, c) dispatched.timers
    × Step dispatched (fire t c dispatched)
    × (why : RelayError) × Memᴰ (0, err why) (fire t c dispatched).settled
unfolding dispatch_request subscriber_connected compute_contract_referen.Base.text_eq
waiting_settles_example = waiting_settles dispatched-Reach (for_response (codes "id") _ refl refl)

replayed_in_order_example :
    (subscriber_connected
      (codes "k")
      6
      (codes "registered")
      (subscriber_closed all_open (codes "k") dispatched)).sent
    ≡ (dispatched.sent
        ++ (each_to 6
              (frames_queued (queued_entries (lookup (codes "k") dispatched.reconnect_queues)))
            ++ each_to 6 (frames_pending (codes "k") dispatched.pending_requests)))
      ++ (6, codes "registered") ∷ []
replayed_in_order_example = replayed_in_order all_open (codes "k") 6 (codes "registered") dispatched

abbrev answer : RelayResult
answer = record { status = 200; body = codes "b"; content_type = none }

abbrev other_answer : RelayResult
other_answer = record { status = 500; body = []; content_type = none }

dispatch_throws_iff_example :
    (dispatch_request all_open (codes "z") (codes "id") (codes "frame") connected
      ≡ (err (no_subscriber (codes "z")), connected))
    ↔ NoneOpen all_open (codes "z") connected
      × (lookup (codes "z") connected.reconnect_queues ≡ none)
dispatch_throws_iff_example =
    dispatch_throws_iff all_open (codes "z") (codes "id") (codes "frame") connected

abbrev registration : RegistrationPayload
registration = record {
  key = codes "did:key:k";
  nonce = codes "n";
  signatures = some (record { key = codes "did:key:k"; signature = codes "s" } ∷ []);
}

abbrev issued : Dict Issued
issued = (codes "n", record { key = codes "did:key:k"; expires_at = 9 }) ∷ []

abbrev every_signature : Text → Text → Text → Bool
every_signature key nonce signature = true

verify-IsAccepted_example :
    ((verify every_signature 5 registration issued).0 ≡ ok registration.key)
    ↔ IsAccepted every_signature 5 registration issued
verify-IsAccepted_example = verify-IsAccepted every_signature 5 registration issued

nonce_used_once_example :
    (verify every_signature 7 registration (
      apply_events every_signature
        (verifying 6 registration ∷ [])
        (verify every_signature 5 registration issued).1)).0
    ≢ ok (codes "did:key:k")
unfolding verify
nonce_used_once_example =
    nonce_used_once every_signature 5 registration issued refl (verifying 6 registration ∷ [])
      (tt, tt) 7 registration (codes "did:key:k") refl

check_registration-IsAccepted_example :
    ((check_registration every_signature 5 (codes "did:key:k") (some registration) issued).0
      ≡ ok (codes "did:key:k"))
    ↔ (starts_with (codes "did:key:k") (codes "did:key:") ≡ true)
      × ((reg : RegistrationPayload) × (some registration ≡ some reg)
          × (reg.key ≡ codes "did:key:k")
          × IsAccepted every_signature 5 reg issued)
check_registration-IsAccepted_example =
    check_registration-IsAccepted every_signature 5 (codes "did:key:k") (some registration) issued
