-- ===== src/Filters/Broadcast/Heard.antt =====
-- A filter hears of exactly the logs that match it (rpc/api/filters).
use smartbch.Base.{
  All, List, Map, Option-cases, [], false, inl, inr, keep_if, map, none, refl, some, true, ℕ, ◌++◌,
  ◌==◌, ◌∙◌, ◌∷◌, ◌≡◌,
}
use smartbch.Filters.Events.{
  Delivery, FilterIndex, Subscription, chain_came, event_loop_round, handle_chain_event,
  handle_logs, handle_removed_logs, install_asked, install_sub, logs_came, matched_logs,
  pending_logs_came, removed_logs_came, source_failed, subscribe_logs, txs_came, uninstall_asked,
  uninstall_sub, new_sub,
}
use smartbch.Filters.Api.{
  Event, FilterCriteria, get_filter_changes, header_arrives, logs_arrive, new_block_filter,
  new_filter, subscription_ends, timeout_tick, timer_fires, uninstall_filter, Installed,
}
use smartbch.Filters.Broadcast.{
  Happening, IsVisit, at_filters, broadcast, filter_created, in_loop, leaves, received, unroll,
  has_key,
}
use smartbch.Filters.Broadcast.Subscribed.{
  HasSub, install_sub-HasSub, made-subscribe_logs, uninstall_sub-HasSub, install_sub-logs,
  keep_if-insert_new,
}
use smartbch.Filters.Matching.{Log, filter_logs}
use smartbch.Filters.Polling.{arrived, differ, spares, collected, new_filter-collected}
use smartbch.Filters.Broadcast.Deliveries.{
  arrived-append, arrived-handle_logs, arrived-handle_removed_logs, filter_logs-append,
  received-spares, arrived-send_headers,
}

module _ (visit : Map Subscription → Map Subscription) (ordered : IsVisit visit) where
  -- All that is known of the events of a filter.
  abbrev Heard : ℕ → FilterCriteria → List Log → List Event → Type 0
  Heard id crit logs es =
      (arrived id es ≡ matched_logs logs crit) × All (λ e. spares id e ≡ true) es

  sent-Heard :
      (id : ℕ) (crit : FilterCriteria) (ev logs : List Log) (sent : List Delivery) (es : List Event)
      → arrived id (map received sent) ≡ matched_logs ev crit
      → Heard id crit logs es
      → Heard id crit (ev ++ logs) (map received sent ++ es)
  sent-Heard id crit ev logs sent es now (later, spared) = (
    rw
        (
          arrived-append id (map received sent) es,
          filter_logs-append ev logs crit.from_block crit.to_block crit.addresses crit.topics,
          now,
          later,
        )
        refl,
    received-spares id sent es spared,
  )

  event-Heard :
      (id : ℕ) (crit : FilterCriteria) (logs : List Log) (e : Event) (es : List Event)
      → leaves id (at_filters e) ≡ true
      → Heard id crit logs es
      → Heard id crit logs (e ∷ es)
  event-Heard id crit logs (logs_arrive other ls) es h k = cc h
  event-Heard id crit logs (new_filter other c) es h k = (k.0, (h, k.1))
  event-Heard id crit logs (new_block_filter other) es h k = (k.0, (h, k.1))
  event-Heard id crit logs (header_arrives other hash) es h k = (k.0, (h, k.1))
  event-Heard id crit logs (subscription_ends other) es h k = (k.0, (h, k.1))
  event-Heard id crit logs (timer_fires other) es h k = (k.0, (h, k.1))
  event-Heard id crit logs (uninstall_filter other) es h k = (k.0, (h, k.1))
  event-Heard id crit logs (get_filter_changes other) es h k = (k.0, (h, k.1))
  event-Heard id crit logs timeout_tick es h k = (k.0, (h, k.1))

  unroll-rejected :
      (id : ℕ) (crit : FilterCriteria) (hs : List Happening) (subs : FilterIndex)
      → subscribe_logs crit id ≡ none
      → unroll visit subs (filter_created id crit ∷ hs) ≡ unroll visit subs hs
  unfolding unroll
  unroll-rejected id crit hs subs h = rw (unroll, h) refl

  unroll-subscribed :
      (id : ℕ) (crit : FilterCriteria) (hs : List Happening) (subs : FilterIndex)
      {new : Subscription}
      → subscribe_logs crit id ≡ some new
      → unroll visit subs (filter_created id crit ∷ hs)
        ≡ new_filter id crit ∷ unroll visit (install_sub subs new) hs
  unfolding unroll
  unroll-subscribed id crit hs subs h = rw (unroll, h) refl

  unroll-Heard :
      (id : ℕ) (sub : Subscription) (hs : List Happening) (subs : FilterIndex)
      → HasSub id sub subs
      → All (λ h. leaves id h ≡ true) hs
      → Heard id sub.logs_crit (broadcast hs) (unroll visit subs hs)
  unfolding unroll event_loop_round filter_logs handle_chain_event
  unroll-Heard id sub [] subs has l = (refl, tt)
  unroll-Heard id sub (filter_created other crit ∷ hs) subs has l =
      elim (Option-cases (subscribe_logs crit other)) [
        | inl none_made ↦
            rw (unroll-rejected other crit hs subs none_made) (unroll-Heard id sub hs subs has l.1)
        | inr (new, made) ↦
            let named : new.id ≡ other = rw (made-subscribe_logs crit other made) refl in
            let apart : (new.id == id) ≡ false = rw named (differ (other == id) l.0) in
            rw (unroll-subscribed other crit hs subs made) (
              event-Heard id sub.logs_crit (broadcast hs) (new_filter other crit)
                (unroll visit (install_sub subs new) hs) l.0
                (unroll-Heard id sub hs (install_sub subs new)
                  (install_sub-HasSub id sub new subs apart has) l.1))
      ]
  unroll-Heard id sub (at_filters e ∷ hs) subs has l =
      event-Heard id sub.logs_crit _ e (unroll visit subs hs) l.0
        (unroll-Heard id sub hs subs has l.1)
  unroll-Heard id sub (in_loop txs_came ∷ hs) subs has l = unroll-Heard id sub hs subs has l.1
  unroll-Heard id sub (in_loop pending_logs_came ∷ hs) subs has l =
      unroll-Heard id sub hs subs has l.1
  unroll-Heard id sub (in_loop source_failed ∷ hs) subs has l = cc (l.0)
  unroll-Heard id sub (in_loop (logs_came ev) ∷ hs) subs has l =
      sent-Heard id sub.logs_crit ev (broadcast hs) (handle_logs visit subs ev)
        (unroll visit subs hs) (arrived-handle_logs visit ordered id sub subs ev has)
        (unroll-Heard id sub hs subs has l.1)
  unroll-Heard id sub (in_loop (removed_logs_came ev) ∷ hs) subs has l =
      sent-Heard id sub.logs_crit ev (broadcast hs) (handle_removed_logs visit subs ev)
        (unroll visit subs hs) (arrived-handle_removed_logs visit ordered id sub subs ev has)
        (unroll-Heard id sub hs subs has l.1)
  unroll-Heard id sub (in_loop (chain_came hash) ∷ hs) subs has l =
      sent-Heard id sub.logs_crit [] (broadcast hs) (handle_chain_event visit subs hash)
        (unroll visit subs hs) (arrived-send_headers id hash (visit subs.of_blocks))
        (unroll-Heard id sub hs subs has l.1)
  unroll-Heard id sub (in_loop (install_asked other) ∷ hs) subs has l =
      unroll-Heard id sub hs (install_sub subs other)
        (install_sub-HasSub id sub other subs (differ (other.id == id) l.0) has) l.1
  unroll-Heard id sub (in_loop (uninstall_asked other) ∷ hs) subs has l =
      unroll-Heard id sub hs (uninstall_sub subs other)
        (uninstall_sub-HasSub id sub other subs (differ (other.id == id) l.0) has) l.1

  -- Let a client create a filter for logs with criteria that `SubscribeLogs` takes and with a new
  -- identifier, and let anything follow in any order: events of the loop, other filters, polls. As
  -- long as no source of events fails, the identifier is not given again, the filter's subscription is
  -- not removed and no sweep for unused filters comes, then what the filter's polls answer, and what is
  -- pending in the end, are together exactly the logs that were broadcast, new or removed, and that
  -- match the criteria, each once and in order, in whatever order the loop visits its subscriptions.
  pub polls-broadcast :
      (id : ℕ) (crit : FilterCriteria) (subs : FilterIndex) (hs : List Happening)
      (filters : Map Installed) {sub : Subscription}
      → keep_if (has_key id) subs.of_logs ≡ []
      → subscribe_logs crit id ≡ some sub
      → All (λ h. leaves id h ≡ true) hs
      → collected id filters (unroll visit subs (filter_created id crit ∷ hs))
        ≡ matched_logs (broadcast hs) crit
  unfolding HasSub
  polls-broadcast id crit subs hs filters {sub} unused made l =
      let is_sub : sub ≡ new_sub id crit = made-subscribe_logs crit id made in
      let has : HasSub id sub (install_sub subs sub) =
        rw (install_sub-logs subs sub (rw is_sub refl), is_sub)
          (keep_if-insert_new id (new_sub id crit) subs.of_logs unused) in
      let (heard, spared) = unroll-Heard id sub hs (install_sub subs sub) has l in
      let crit_same : sub.logs_crit ≡ crit = rw is_sub refl in
      rw (unroll-subscribed id crit hs subs made) (
        new_filter-collected id crit filters (unroll visit (install_sub subs sub) hs) spared
        ∙ (heard ∙ rw crit_same refl))
