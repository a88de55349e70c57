-- ===== src/Filters/Broadcast.antt =====
-- The event loop and the filters together: what the polls of a filter answer of the logs that the chain
-- broadcasts (rpc/api/filters/geth_filter_system.go and filter_api.go).
pub mod Subscribed
pub mod Deliveries
pub mod Heard
use smartbch.Base.{
  Bool, List, Map, [], false, keep_if, map, none, not, some, true, ℕ, ◌++◌, ◌==◌, ◌∷◌, ◌≡◌,
}
use smartbch.Filters.Events.{
  Delivery, FilterIndex, LoopEvent, Subscription, event_loop_round, header_sent, install_asked,
  install_sub, logs_came, logs_sent, removed_logs_came, source_failed, subscribe_logs,
  uninstall_asked,
}
use smartbch.Filters.Api.{Event, FilterCriteria, header_arrives, logs_arrive, new_filter}
use smartbch.Filters.Matching.{Log}
use smartbch.Filters.Polling.{spares}

-- Either a client's `NewFilter`, or one event of the loop, with all its deliveries received, or one
-- event of the filters. A delivery waits until `NewFilter` is through, and is appended at once.
pub data Happening : Type 0 where
  filter_created : ℕ → FilterCriteria → Happening
  in_loop : LoopEvent → Happening
  at_filters : Event → Happening

abbrev pub received : Delivery → Event
received (logs_sent id logs) = logs_arrive id logs
received (header_sent id hash) = header_arrives id hash

-- Whether a filter is left alone by a happening.
abbrev pub leaves : ℕ → Happening → Bool
leaves id (filter_created other crit) = not (other == id)
leaves id (in_loop (install_asked sub)) = not (sub.id == id)
leaves id (in_loop (uninstall_asked sub)) = not (sub.id == id)
leaves id (in_loop source_failed) = false
leaves id (in_loop e) = true
leaves id (at_filters (logs_arrive other logs)) = false
leaves id (at_filters e) = spares id e

-- The logs that the chain broadcasts.
abbrev pub broadcast : List Happening → List Log
broadcast [] = []
broadcast (in_loop (logs_came ev) ∷ hs) = ev ++ broadcast hs
broadcast (in_loop (removed_logs_came ev) ∷ hs) = ev ++ broadcast hs
broadcast (h ∷ hs) = broadcast hs

-- A pair is an entry of the map of subscriptions.
abbrev pub has_key : ℕ → ℕ × Subscription → Bool
has_key id entry = entry.0 == id

-- An order in which a map is gone over, which shows the entries of each key as they are.
abbrev pub IsVisit : (Map Subscription → Map Subscription) → Type 0
IsVisit visit =
    (id : ℕ) (subs : Map Subscription)
    → keep_if (has_key id) (visit subs) ≡ keep_if (has_key id) subs

module _ (visit : Map Subscription → Map Subscription) where
  -- The events of the filters in a series of happenings, which ends where the loop stops.
  unfoldable pub unroll : FilterIndex → List Happening → List Event
  unroll subs [] = []
  unroll subs (filter_created id crit ∷ hs) = elim (subscribe_logs crit id) [
    | none ↦ unroll subs hs
    | some sub ↦ new_filter id crit ∷ unroll (install_sub subs sub) hs
  ]
  unroll subs (in_loop e ∷ hs) = elim (event_loop_round visit subs e) [
    | none ↦ []
    | some (after, sent) ↦ map received sent ++ unroll after hs
  ]
  unroll subs (at_filters e ∷ hs) = e ∷ unroll subs hs
