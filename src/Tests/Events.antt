-- ===== src/Tests/Events.antt =====
-- Runs of the event loop of the filters, and the theorems about it at concrete inputs.
use smartbch.Base.{List, Map, [], arith, erase, false, insert, none, refl, some, ℕ, ◌↔◌, ◌∷◌, ◌≡◌}
use smartbch.Filters.Api.{FilterCriteria, get_filter_changes, no_criteria}
use smartbch.Filters.Events.{
  FilterIndex, Subscription, chain_came, event_loop, event_loop_round, handle_logs, install_asked,
  install_sub, logs_came, logs_sent, matched_logs, removed_logs_came, send_logs, subscribe_logs,
  uninstall_asked, uninstall_sub, new_sub,
}
use smartbch.Filters.Broadcast.{
  Happening, IsVisit, at_filters, broadcast, filter_created, in_loop, unroll,
}
use smartbch.Filters.Matching.{Log, filter_logs, includes, log_matches, topics_match}
use smartbch.Filters.Polling.{collected}
use smartbch.Filters.Broadcast.Heard.{polls-broadcast}
use smartbch.Filters.Criteria.{subscribe_logs-log_matches}
use smartbch.App.Publish.{
  NodeEvent, at_client, from_block_hears_nothing, node_happenings, polls-published, published,
  published_logs,
}
use smartbch.App.State.{StoredBlock}

abbrev as_is : Map Subscription → Map Subscription
as_is subs = subs

as_is-IsVisit : IsVisit as_is
as_is-IsVisit id subs = refl

abbrev of_five : FilterCriteria
of_five = record no_criteria { addresses = 5 ∷ [] }

abbrev log_from : ℕ → ℕ → Log
log_from address number = record {
  address = address;
  topics = [];
  block_number = number;
  tx_hash = 1;
}

abbrev nobody : FilterIndex
nobody = record { of_logs = []; of_blocks = [] }

abbrev some_happenings : List Happening
some_happenings =
    in_loop (logs_came (log_from 5 1 ∷ log_from 6 1 ∷ []))
    ∷ at_filters (get_filter_changes 7)
    ∷ filter_created 8 no_criteria
    ∷ in_loop (chain_came 30)
    ∷ in_loop (removed_logs_came (log_from 5 2 ∷ []))
    ∷ []

made_seven : subscribe_logs of_five 7 ≡ some (new_sub 7 of_five)
unfolding subscribe_logs
made_seven = refl

polls-broadcast_example :
    collected 7 [] (unroll as_is nobody (filter_created 7 of_five ∷ some_happenings))
    ≡ matched_logs (broadcast some_happenings) of_five
polls-broadcast_example =
    polls-broadcast as_is as_is-IsVisit 7 of_five nobody some_happenings [] refl made_seven
      (refl, (refl, (refl, (refl, (refl, tt)))))

heard_logs : matched_logs (broadcast some_happenings) of_five ≡ log_from 5 1 ∷ log_from 5 2 ∷ []
unfolding filter_logs log_matches includes topics_match
heard_logs = refl

abbrev from_to : ℕ → ℕ → FilterCriteria
from_to a b = record no_criteria { from_block = some a; to_block = some b }

subscribe_logs-log_matches_example :
    (subscribe_logs (from_to 9 4) 1 ≡ none)
    ↔ ((log : Log) → log_matches (some 9) (some 4) [] [] log ≡ false)
subscribe_logs-log_matches_example =
    subscribe_logs-log_matches (from_to 9 4) 1 9 4 refl refl (omega arith) (omega arith)

-- What the loop sends after a subscription, and that it sends nothing once that is gone.
loop_sends :
    event_loop as_is nobody (
      install_asked (new_sub 7 of_five)
      ∷ logs_came (log_from 6 1 ∷ [])
      ∷ logs_came (log_from 5 1 ∷ [])
      ∷ uninstall_asked (new_sub 7 of_five)
      ∷ logs_came (log_from 5 2 ∷ [])
      ∷ [])
    ≡ logs_sent 7 (log_from 5 1 ∷ []) ∷ []
unfolding event_loop event_loop_round install_sub uninstall_sub insert erase handle_logs send_logs
    filter_logs log_matches includes topics_match
loop_sends = refl

abbrev a_block : StoredBlock
a_block = record {
  info = record {
    number = 7;
    timestamp = 100;
    size = 0;
    miner = 0;
    hash = 70;
    parent_hash = 60;
    transactions_root = 0;
    state_root = 0;
    gas_used = 0;
    transactions = 9 ∷ [];
  };
  logs = record { address = 5; topics = [] } ∷ record { address = 6; topics = 1 ∷ [] } ∷ [];
}

abbrev node_life : List NodeEvent
node_life =
    published none
    ∷ published (some a_block)
    ∷ at_client (get_filter_changes 7)
    ∷ published (some a_block)
    ∷ []

polls-published_example :
    collected 7 [] (unroll as_is nobody (filter_created 7 of_five ∷ node_happenings node_life))
    ≡ matched_logs (published_logs node_life) of_five
polls-published_example =
    polls-published as_is as_is-IsVisit 7 of_five nobody node_life [] refl made_seven
      (refl, (refl, (refl, (refl, tt))))

abbrev from_seven : FilterCriteria
from_seven = record no_criteria { from_block = some 7 }

made_from_seven : subscribe_logs from_seven 7 ≡ some (new_sub 7 from_seven)
unfolding subscribe_logs
made_from_seven = refl

from_block_hears_nothing_example :
    collected 7 [] (unroll as_is nobody (filter_created 7 from_seven ∷ node_happenings node_life))
    ≡ []
from_block_hears_nothing_example =
    from_block_hears_nothing as_is as_is-IsVisit 7 7 from_seven nobody node_life [] refl
      made_from_seven (refl, (refl, (refl, (refl, tt)))) refl (omega arith) (omega arith)
