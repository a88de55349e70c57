-- ===== src/Filters/Broadcast/Deliveries.antt =====
-- What the event loop sends to one subscription (rpc/api/filters/geth_filter_system.go).
use smartbch.Base.{
  All, Bool-cases, List, Map, Option, [], append-nil, append_assoc, arith, false, if◌then◌else◌,
  inl, inr, keep_if, length, ltb, map, refl, true, ℕ, ◌++◌, ◌==◌, ◌∙◌, ◌∷◌, ◌≡◌,
}
use smartbch.Filters.Events.{
  Delivery, FilterIndex, Subscription, handle_logs, handle_removed_logs, header_sent, logs_sent,
  matched_logs, send_headers, send_logs,
}
use smartbch.Filters.Api.{
  Event, get_filter_changes, header_arrives, logs_arrive, new_block_filter, new_filter,
  subscription_ends, timeout_tick, timer_fires, uninstall_filter,
}
use smartbch.Filters.Broadcast.Subscribed.{HasSub}
use smartbch.Filters.Broadcast.{IsVisit, received, has_key}
use smartbch.Filters.Matching.{Log, filter_logs}
use smartbch.Filters.Polling.{arrived, spares}

pub filter_logs-append :
    (xs ys : List Log) (from_block to_block : Option ℕ) (addresses : List ℕ)
    (topics : List (List ℕ))
    → filter_logs (xs ++ ys) from_block to_block addresses topics
      ≡ filter_logs xs from_block to_block addresses topics
        ++ filter_logs ys from_block to_block addresses topics
unfolding filter_logs
filter_logs-append [] ys from_block to_block addresses topics = refl
filter_logs-append (x ∷ xs) ys from_block to_block addresses topics =
    ground (arith, filter_logs-append xs ys from_block to_block addresses topics)

pub arrived-append :
    (id : ℕ) (xs ys : List Event) → arrived id (xs ++ ys) ≡ arrived id xs ++ arrived id ys
arrived-append id [] ys = refl
arrived-append id (logs_arrive other ls ∷ xs) ys = elim (Bool-cases (other == id)) [
  | inl same ↦ rw (same, arrived-append id xs ys, append_assoc ls (arrived id xs) (arrived id ys))
  | inr differs ↦ rw (differs, arrived-append id xs ys)
]
arrived-append id (new_filter other crit ∷ xs) ys = arrived-append id xs ys
arrived-append id (new_block_filter other ∷ xs) ys = arrived-append id xs ys
arrived-append id (header_arrives other hash ∷ xs) ys = arrived-append id xs ys
arrived-append id (subscription_ends other ∷ xs) ys = arrived-append id xs ys
arrived-append id (timer_fires other ∷ xs) ys = arrived-append id xs ys
arrived-append id (uninstall_filter other ∷ xs) ys = arrived-append id xs ys
arrived-append id (get_filter_changes other ∷ xs) ys = arrived-append id xs ys
arrived-append id (timeout_tick ∷ xs) ys = arrived-append id xs ys

-- The matching logs of the entries with a key.
pub matched_by : ℕ → List Log → Map Subscription → List Log
matched_by id ev [] = []
matched_by id ev (entry ∷ entries) =
    let rest = matched_by id ev entries in
    if has_key id entry then matched_logs ev (entry.1).logs_crit ++ rest else rest

matched_by-keep_if :
    (id : ℕ) (ev : List Log) (subs : Map Subscription)
    → matched_by id ev (keep_if (has_key id) subs) ≡ matched_by id ev subs
unfolding matched_by
matched_by-keep_if id ev [] = refl
matched_by-keep_if id ev (entry ∷ entries) = ground (arith, matched_by-keep_if id ev entries)

nothing_matched : (logs : List Log) → ltb 0 (length logs) ≡ false → logs ≡ []
nothing_matched [] h = refl
nothing_matched (log ∷ logs) h = absurd (ground arith)

arrived-send_logs :
    (id : ℕ) (ev : List Log) (subs : Map Subscription)
    → arrived id (map received (send_logs ev subs)) ≡ matched_by id ev subs
unfolding send_logs matched_by
arrived-send_logs id ev [] = refl
arrived-send_logs id ev (entry ∷ entries) =
    elim (Bool-cases (ltb 0 (length (matched_logs ev (entry.1).logs_crit)))) [
      | inl sent ↦ rw (sent, arrived-send_logs id ev entries) refl
      | inr unsent ↦
          let empty = nothing_matched (matched_logs ev (entry.1).logs_crit) unsent in
          ground (arith, arrived-send_logs id ev entries, empty)
    ]

pub received-spares :
    (id : ℕ) (sent : List Delivery) (es : List Event)
    → All (λ e. spares id e ≡ true) es
    → All (λ e. spares id e ≡ true) (map received sent ++ es)
received-spares id [] es h = h
received-spares id (logs_sent other logs ∷ sent) es h = (refl, received-spares id sent es h)
received-spares id (header_sent other hash ∷ sent) es h = (refl, received-spares id sent es h)

pub arrived-send_headers :
    (id hash : ℕ) (subs : Map Subscription)
    → arrived id (map received (send_headers hash subs)) ≡ []
unfolding send_headers
arrived-send_headers id hash [] = refl
arrived-send_headers id hash (entry ∷ entries) = arrived-send_headers id hash entries

module _ (visit : Map Subscription → Map Subscription) (ordered : IsVisit visit) where
  matched_by-HasSub :
      (id : ℕ) (sub : Subscription) (subs : FilterIndex) (ev : List Log)
      → HasSub id sub subs
      → matched_by id ev (visit subs.of_logs) ≡ matched_logs ev sub.logs_crit
  unfolding HasSub matched_by
  matched_by-HasSub id sub subs ev has =
      rw (← matched_by-keep_if id ev (visit subs.of_logs), ordered id subs.of_logs, has)
        (ground (arith, append-nil (matched_logs ev sub.logs_crit)))

  pub arrived-handle_removed_logs :
      (id : ℕ) (sub : Subscription) (subs : FilterIndex) (ev : List Log)
      → HasSub id sub subs
      → arrived id (map received (handle_removed_logs visit subs ev))
        ≡ matched_logs ev sub.logs_crit
  unfolding handle_removed_logs
  arrived-handle_removed_logs id sub subs ev has =
      arrived-send_logs id ev (visit subs.of_logs) ∙ matched_by-HasSub id sub subs ev has

  pub arrived-handle_logs :
      (id : ℕ) (sub : Subscription) (subs : FilterIndex) (ev : List Log)
      → HasSub id sub subs
      → arrived id (map received (handle_logs visit subs ev)) ≡ matched_logs ev sub.logs_crit
  unfolding handle_logs
  arrived-handle_logs id sub subs [] has = unfold filter_logs in refl
  arrived-handle_logs id sub subs (log ∷ logs) has =
      arrived-send_logs id (log ∷ logs) (visit subs.of_logs)
      ∙ matched_by-HasSub id sub subs (log ∷ logs) has
