-- ===== src/Relay/Server.antt =====
-- The socket handlers of src/typescript/lib/hono-factory-xrpc-relay/mod.ts over the relay's state. The
-- JSON of a frame is read into a `Message` before the handler's switch.
use compute_contract_referen.Base.{
  ℕ, Bool, Option, none, some, [], ◌∷◌, ◌++◌, if◌then◌else◌, Text, lookup, put, delete,
}
use compute_contract_referen.Relay.{
  RelayResult, RelayState, drain_to_reconnect_queue, flush_reconnect_queue,
  reject_subscriber_subscriptions, open_subscriber, handle_response,
}

-- `onOpen` of the subscriber's socket, once its registration is accepted.
unfoldable pub subscriber_connected : Text → ℕ → Text → RelayState → RelayState
unfolding put flush_reconnect_queue
subscriber_connected subdomain ws registered s =
    let s' =
      flush_reconnect_queue subdomain ws
        (record s { subscribers = put subdomain ws s.subscribers }) in
    record s' { sent = s'.sent ++ (ws, registered) ∷ [] }

-- `onClose` and `onError` of the subscriber's socket
unfoldable pub subscriber_closed : (ℕ → Bool) → Text → RelayState → RelayState
unfolding delete drain_to_reconnect_queue reject_subscriber_subscriptions
subscriber_closed is_open subdomain s =
    reject_subscriber_subscriptions is_open subdomain (
      drain_to_reconnect_queue subdomain
        (record s { subscribers = delete subdomain s.subscribers }))

-- A frame from a subscriber, by its kind; an id that is missing or empty is `none`.
pub data Message : Type 0 where
  response : Option Text → RelayResult → Message
  subscription_open : Message
  subscription_event : Option Text → Text → Message
  subscription_close : Option Text → Option ℕ → Message
  unknown : Message

abbrev close_code : Option ℕ → ℕ
close_code none = 1000
close_code (some code) = code

-- The socket of a subscription's caller, if it is open.
unfoldable pub open_caller : (ℕ → Bool) → Text → RelayState → Option ℕ
unfolding lookup
open_caller is_open id s = elim (lookup id s.active_subscriptions) [
  | none ↦ none
  | some sub ↦ if is_open sub.caller_ws then some sub.caller_ws else none
]

-- `onMessage` of the subscriber's socket
unfoldable pub subscriber_message : (ℕ → Bool) → Message → RelayState → RelayState
unfolding handle_response open_caller delete
subscriber_message is_open (response none result) s = s
subscriber_message is_open (response (some id) result) s = handle_response id result s
subscriber_message is_open subscription_open s = s
subscriber_message is_open (subscription_event none message) s = s
subscriber_message is_open (subscription_event (some id) message) s =
    elim (open_caller is_open id s) [
      | none ↦ s
      | some ws ↦ record s { sent = s.sent ++ (ws, message) ∷ [] }
    ]
subscriber_message is_open (subscription_close none code) s = s
subscriber_message is_open (subscription_close (some id) code) s =
    let s' : RelayState = elim (open_caller is_open id s) [
      | none ↦ s
      | some ws ↦ record s { closed = s.closed ++ (ws, close_code code) ∷ [] }
    ] in
    record s' { active_subscriptions = delete id s'.active_subscriptions }
subscriber_message is_open unknown s = s

-- `onOpen` of a caller's socket: the subscription is passed on, or the caller is closed.
unfoldable pub caller_opened : (ℕ → Bool) → Text → Text → Text → ℕ → Text → RelayState → RelayState
unfolding open_subscriber put
caller_opened is_open subdomain id nsid caller subscribe s =
    elim (open_subscriber is_open subdomain s) [
      | none ↦ record s { closed = s.closed ++ (caller, 4004) ∷ [] }
      | some ws ↦ record s {
        active_subscriptions =
            put id (record { caller_ws = caller; subdomain = subdomain; nsid = nsid })
              s.active_subscriptions;
        sent = s.sent ++ (ws, subscribe) ∷ [];
      }
    ]

-- `onClose` of a caller's socket
unfoldable pub caller_closed : (ℕ → Bool) → Text → Text → RelayState → RelayState
unfolding lookup open_subscriber delete
caller_closed is_open id cancel s = elim (lookup id s.active_subscriptions) [
  | none ↦ s
  | some sub ↦ elim (open_subscriber is_open sub.subdomain s) [
    | none ↦ record s { active_subscriptions = delete id s.active_subscriptions }
    | some ws ↦ record s {
      active_subscriptions = delete id s.active_subscriptions;
      sent = s.sent ++ (ws, cancel) ∷ [];
    }
  ]
]

-- `onError` of a caller's socket
unfoldable pub caller_failed : Text → RelayState → RelayState
unfolding delete
caller_failed id s = record s { active_subscriptions = delete id s.active_subscriptions }
