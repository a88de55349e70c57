-- ===== src/Filters/Events.antt =====
-- rpc/api/filters/geth_filter_system.go: the loop that keeps the subscriptions and hands events on to
-- them. A subscription's channel is named by its identifier; sources of events that fail stop the loop.
use smartbch.Base.{
  List, Map, Option, [], erase, if◌then◌else◌, insert, leb_i64, length, ltb, none, some, ℕ, ◌&&◌,
  ◌++◌, ◌==◌, ◌∷◌,
}
use smartbch.Filters.Api.{
  FilterCriteria, FilterType, blocks_subscription, logs_subscription, no_criteria,
}
use smartbch.Filters.Matching.{Log, filter_logs}
use smartbch.Filters.Search.{minus_one}

pub record Subscription : Type 0 where
  pub id : ℕ
  pub typ : FilterType
  pub logs_crit : FilterCriteria

-- `filterIndex`: the subscriptions of the two types that are ever made.
pub record FilterIndex : Type 0 where
  pub of_logs : Map Subscription
  pub of_blocks : Map Subscription

-- What the loop selects. A chain event is the hash of its header.
pub data LoopEvent : Type 0 where
  txs_came pending_logs_came source_failed : LoopEvent
  logs_came removed_logs_came : List Log → LoopEvent
  chain_came : ℕ → LoopEvent
  install_asked uninstall_asked : Subscription → LoopEvent

-- What the loop writes to a subscription's channel.
pub data Delivery : Type 0 where
  logs_sent : ℕ → List Log → Delivery
  header_sent : ℕ → ℕ → Delivery

-- `subscribeLogs`
abbrev pub new_sub : ℕ → FilterCriteria → Subscription
new_sub id crit = record { id = id; typ = logs_subscription; logs_crit = crit }

-- `SubscribeLogs`: the subscription, or the error for a pair of blocks that is none. Block numbers are
-- `int64`s as bit patterns, and the latest block is -1.
unfoldable pub subscribe_logs : FilterCriteria → ℕ → Option Subscription
subscribe_logs crit id =
    if from_number == minus_one && to_number == minus_one
    then some (new_sub id crit)
    else if leb_i64 0 from_number && leb_i64 0 to_number && leb_i64 from_number to_number
    then some (new_sub id crit)
    else if leb_i64 0 from_number && to_number == minus_one
    then some (new_sub id crit)
    else none
  where
    from_number : ℕ
    from_number = elim crit.from_block [ none ↦ minus_one | some n ↦ n ]

    to_number : ℕ
    to_number = elim crit.to_block [ none ↦ minus_one | some n ↦ n ]

-- `SubscribeNewHeads`
unfoldable pub subscribe_new_heads : ℕ → Subscription
subscribe_new_heads id = record { id = id; typ = blocks_subscription; logs_crit = no_criteria }

abbrev pub matched_logs : List Log → FilterCriteria → List Log
matched_logs ev crit = filter_logs ev crit.from_block crit.to_block crit.addresses crit.topics

-- The loop over the subscriptions for logs.
unfoldable pub send_logs : List Log → Map Subscription → List Delivery
send_logs ev [] = []
send_logs ev (entry ∷ entries) =
    let rest = send_logs ev entries in
    let matched = matched_logs ev (entry.1).logs_crit in
    if ltb 0 (length matched) then logs_sent entry.0 matched ∷ rest else rest

unfoldable pub send_headers : ℕ → Map Subscription → List Delivery
send_headers hash [] = []
send_headers hash (entry ∷ entries) = header_sent entry.0 hash ∷ send_headers hash entries

unfoldable pub install_sub : FilterIndex → Subscription → FilterIndex
install_sub filters sub = elim sub.typ [
  | logs_subscription ↦ record filters { of_logs = insert sub.id sub filters.of_logs }
  | blocks_subscription ↦ record filters { of_blocks = insert sub.id sub filters.of_blocks }
]

unfoldable pub uninstall_sub : FilterIndex → Subscription → FilterIndex
uninstall_sub filters sub = elim sub.typ [
  | logs_subscription ↦ record filters { of_logs = erase sub.id filters.of_logs }
  | blocks_subscription ↦ record filters { of_blocks = erase sub.id filters.of_blocks }
]

-- `visit` is the order in which `range` goes over a map.
module _ (visit : Map Subscription → Map Subscription) where
  unfoldable pub handle_logs : FilterIndex → List Log → List Delivery
  handle_logs filters [] = []
  handle_logs filters (log ∷ logs) = send_logs (log ∷ logs) (visit filters.of_logs)

  unfoldable pub handle_removed_logs : FilterIndex → List Log → List Delivery
  handle_removed_logs filters ev = send_logs ev (visit filters.of_logs)

  unfoldable pub handle_chain_event : FilterIndex → ℕ → List Delivery
  handle_chain_event filters hash = send_headers hash (visit filters.of_blocks)

  -- One round of `eventLoop`; `none` is its return.
  unfoldable pub event_loop_round : FilterIndex → LoopEvent → Option (FilterIndex × List Delivery)
  event_loop_round filters txs_came = some (filters, [])
  event_loop_round filters (logs_came ev) = some (filters, handle_logs filters ev)
  event_loop_round filters (removed_logs_came ev) = some (filters, handle_removed_logs filters ev)
  event_loop_round filters pending_logs_came = some (filters, [])
  event_loop_round filters (chain_came hash) = some (filters, handle_chain_event filters hash)
  event_loop_round filters (install_asked sub) = some (install_sub filters sub, [])
  event_loop_round filters (uninstall_asked sub) = some (uninstall_sub filters sub, [])
  event_loop_round filters source_failed = none

  -- `eventLoop`: what it sends, until a source fails or the events end.
  unfoldable pub event_loop : FilterIndex → List LoopEvent → List Delivery
  event_loop filters [] = []
  event_loop filters (e ∷ es) = elim (event_loop_round filters e) [
    | none ↦ []
    | some (after, sent) ↦ sent ++ event_loop after es
  ]
