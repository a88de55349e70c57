-- ===== src/App/Publish.antt =====
-- app/app.go: `publishNewBlock`, which feeds the event loop of the filters, and what the filters hear of
-- the blocks (with rpc/api/filters/geth_filter_system.go).
use smartbch.Base.{
  All, Bool, Bool-cases, List, Map, Option, [], arith, false, if◌then◌else◌, inl, inr, keep_if,
  length, ltb, map, none, refl, some, true, ℕ, ◌++◌, ◌<◌, ◌^◌, ◌∙◌, ◌∷◌, ◌≡◌,
}
use smartbch.Filters.Api.{Event, FilterCriteria, Installed}
use smartbch.App.Machine.{EvmLog}
use smartbch.Filters.Events.{
  FilterIndex, LoopEvent, Subscription, chain_came, logs_came, matched_logs, subscribe_logs,
}
use smartbch.Filters.Broadcast.{
  Happening, IsVisit, at_filters, broadcast, filter_created, has_key, in_loop, leaves, unroll,
}
use smartbch.Filters.Matching.{Log, filter_logs, log_matches}
use smartbch.App.State.{StoredBlock}
use smartbch.Filters.Polling.{collected}
use smartbch.Filters.Broadcast.Heard.{polls-broadcast}

-- A log as it is published: of its fields, the code sets the address and the topics.
abbrev pub geth_log : EvmLog → Log
geth_log log = record { address = log.address; topics = log.topics; block_number = 0; tx_hash = 0 }

unfoldable pub publish_new_block : Option StoredBlock → List LoopEvent
publish_new_block none = []
publish_new_block (some blk) =
    let logs = map geth_log blk.logs in
    if ltb 0 (length logs)
    then chain_came (blk.info).hash ∷ logs_came logs ∷ []
    else chain_came (blk.info).hash ∷ []

-- What happens at the node: a block is published, or something at the filters.
pub data NodeEvent : Type 0 where
  published : Option StoredBlock → NodeEvent
  at_client : Event → NodeEvent

abbrev pub node_happenings : List NodeEvent → List Happening
node_happenings [] = []
node_happenings (published blk ∷ es) = map in_loop (publish_new_block blk) ++ node_happenings es
node_happenings (at_client e ∷ es) = at_filters e ∷ node_happenings es

abbrev pub spared_by : ℕ → NodeEvent → Bool
spared_by id (published blk) = true
spared_by id (at_client e) = leaves id (at_filters e)

-- The logs of the blocks that are published.
abbrev pub published_logs : List NodeEvent → List Log
published_logs [] = []
published_logs (published none ∷ es) = published_logs es
published_logs (published (some blk) ∷ es) = map geth_log blk.logs ++ published_logs es
published_logs (at_client e ∷ es) = published_logs es

no_logs : (logs : List Log) → ltb 0 (length logs) ≡ false → logs ≡ []
no_logs [] h = refl
no_logs (log ∷ logs) h = absurd (ground arith)

broadcast-node_happenings :
    (es : List NodeEvent) → broadcast (node_happenings es) ≡ published_logs es
unfolding publish_new_block
broadcast-node_happenings [] = refl
broadcast-node_happenings (published none ∷ es) = broadcast-node_happenings es
broadcast-node_happenings (published (some blk) ∷ es) =
    elim (Bool-cases (ltb 0 (length (map geth_log blk.logs)))) [
      | inl logged ↦ rw (logged, broadcast-node_happenings es) refl
      | inr unlogged ↦
          rw (unlogged, no_logs (map geth_log blk.logs) unlogged, broadcast-node_happenings es) refl
    ]
broadcast-node_happenings (at_client e ∷ es) = broadcast-node_happenings es

leaves-node_happenings :
    (id : ℕ) (es : List NodeEvent)
    → All (λ e. spared_by id e ≡ true) es
    → All (λ h. leaves id h ≡ true) (node_happenings es)
unfolding publish_new_block
leaves-node_happenings id [] s = tt
leaves-node_happenings id (published none ∷ es) s = leaves-node_happenings id es s.1
leaves-node_happenings id (published (some blk) ∷ es) s =
    elim (Bool-cases (ltb 0 (length (map geth_log blk.logs)))) [
      | inl logged ↦ rw logged (refl, (refl, leaves-node_happenings id es s.1))
      | inr unlogged ↦ rw unlogged (refl, leaves-node_happenings id es s.1)
    ]
leaves-node_happenings id (at_client e ∷ es) s = (s.0, leaves-node_happenings id es s.1)

unnumbered :
    (n : ℕ) (logs : List EvmLog) (rest : List Log) (crit : FilterCriteria)
    → crit.from_block ≡ some n
    → 0 < n
    → n < 2 ^ 63
    → matched_logs rest crit ≡ []
    → matched_logs (map geth_log logs ++ rest) crit ≡ []
unfolding filter_logs log_matches
unnumbered n [] rest crit from pos below h = h
unnumbered n (log ∷ logs) rest crit from pos below h =
    ground (arith, unnumbered n logs rest crit from pos below h)

unseen :
    (n : ℕ) (es : List NodeEvent) (crit : FilterCriteria)
    → crit.from_block ≡ some n
    → 0 < n
    → n < 2 ^ 63
    → matched_logs (published_logs es) crit ≡ []
unseen n [] crit from pos below = unfold filter_logs in refl
unseen n (published none ∷ es) crit from pos below = unseen n es crit from pos below
unseen n (published (some blk) ∷ es) crit from pos below =
    unnumbered n blk.logs (published_logs es) crit from pos below (unseen n es crit from pos below)
unseen n (at_client e ∷ es) crit from pos below = unseen n es crit from pos below

module _ (visit : Map Subscription → Map Subscription) (ordered : IsVisit visit) where
  -- After a client has created a filter for logs with a new identifier, and as long as it is not
  -- uninstalled, its subscription does not end, its identifier is not given again and no sweep for
  -- unused filters comes, what its polls answer, and what is pending in the end, are together exactly
  -- the logs of all the blocks that the node publishes, in order, that match the filter's criteria when
  -- their block number is taken to be 0.
  pub polls-published :
      (id : ℕ) (crit : FilterCriteria) (subs : FilterIndex) (es : List NodeEvent)
      (filters : Map Installed) {sub : Subscription}
      → keep_if (has_key id) subs.of_logs ≡ []
      → subscribe_logs crit id ≡ some sub
      → All (λ e. spared_by id e ≡ true) es
      → collected id filters (unroll visit subs (filter_created id crit ∷ node_happenings es))
        ≡ matched_logs (published_logs es) crit
  polls-published id crit subs es filters unused made s = rw (← broadcast-node_happenings es) (
      polls-broadcast visit ordered id crit subs (node_happenings es) filters unused made
        (leaves-node_happenings id es s))

  -- Let a client create a filter that asks for the logs from a block on, of a number from 1 up to
  -- 2 ^ 63, with criteria that `SubscribeLogs` takes and with a new identifier, and let anything follow
  -- in any order: blocks that the node publishes, other filters, polls. As long as the filter is not
  -- uninstalled, its subscription does not end, its identifier is not given again and no sweep for
  -- unused filters comes, it never hears of any log: whatever blocks the node publishes, all its polls
  -- together, and what is pending in the end, are no logs.
  pub from_block_hears_nothing :
      (id n : ℕ) (crit : FilterCriteria) (subs : FilterIndex) (es : List NodeEvent)
      (filters : Map Installed) {sub : Subscription}
      → keep_if (has_key id) subs.of_logs ≡ []
      → subscribe_logs crit id ≡ some sub
      → All (λ e. spared_by id e ≡ true) es
      → crit.from_block ≡ some n
      → 0 < n
      → n < 2 ^ 63
      → collected id filters (unroll visit subs (filter_created id crit ∷ node_happenings es)) ≡ []
  from_block_hears_nothing id n crit subs es filters unused made s from pos below =
      polls-published id crit subs es filters unused made s ∙ unseen n es crit from pos below
