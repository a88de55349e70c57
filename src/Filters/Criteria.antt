-- ===== src/Filters/Criteria.antt =====
-- Which ranges of blocks a subscription may have (rpc/api/filters/geth_filter_system.go).
use smartbch.Base.{[], arith, false, ltb, none, not, some, ℕ, ◌&&◌, ◌<◌, ◌^◌, ◌↔◌, ◌∙◌, ◌≡◌}
use smartbch.Filters.Api.{FilterCriteria}
use smartbch.Filters.Matching.{Log, log_matches, topics_match}
use smartbch.Filters.Events.{subscribe_logs}

log_at : ℕ → Log
log_at number = record { address = 0; topics = []; block_number = number; tx_hash = 0 }

in_range :
    (crit : FilterCriteria) (from_number to_number : ℕ) (log : Log)
    → crit.from_block ≡ some from_number
    → crit.to_block ≡ some to_number
    → from_number < 2 ^ 63
    → to_number < 2 ^ 63
    → log_matches crit.from_block crit.to_block [] [] log
      ≡ not (ltb log.block_number from_number) && not (ltb to_number log.block_number)
unfolding log_matches topics_match
in_range crit from_number to_number log a b small_from small_to = ground arith

-- Of two block numbers that are both given and both below 2 ^ 63, `SubscribeLogs` refuses exactly those
-- pairs between which no log can lie: it fails if and only if no log at all passes the test of
-- `filterLogs` on the block numbers.
pub subscribe_logs-log_matches :
    (crit : FilterCriteria) (id from_number to_number : ℕ)
    → crit.from_block ≡ some from_number
    → crit.to_block ≡ some to_number
    → from_number < 2 ^ 63
    → to_number < 2 ^ 63
    → (subscribe_logs crit id ≡ none)
      ↔ ((log : Log) → log_matches crit.from_block crit.to_block [] [] log ≡ false)
unfolding subscribe_logs log_at
subscribe_logs-log_matches crit id from_number to_number a b small_from small_to = (
  λ fails log. in_range crit from_number to_number log a b small_from small_to ∙ ground arith,
  λ no_log.
      let gone = no_log (log_at from_number) in
      let test = in_range crit from_number to_number (log_at from_number) a b small_from small_to in
      ground arith,
)
