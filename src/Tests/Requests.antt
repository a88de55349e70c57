-- ===== src/Tests/Requests.antt =====
-- Requests to a node with a small chain, and the theorems about them at concrete inputs (rpc/api and
-- api/backend.go).
use smartbch.Base.{
  List, [], arith, false, if◌then◌else◌, keep_if, leb, length, ltb, map, none, refl, some, suc,
  true, ℕ, ◌<◌, ◌==◌, ◌↔◌, ◌∷◌, ◌≡◌, ◌≤◌, ◌⊎◌,
}
use smartbch.Backend.{ChainBlock, ChainTx, Node, filter_backend, not_stored, there}
use smartbch.Filters.Search.{Filter, logs_of, concat_logs}
use smartbch.Rpc.HeightRange.{IsBetween, prepare_height_range_lem}
use smartbch.Backend.Search.{wild_block_search, block_search_finds_nothing, full_logs}
use smartbch.Rpc.Eth.{
  get_block_transaction_count_by_hash, get_block_transaction_count_by_number,
  get_transaction_by_block_hash_and_index, get_transaction_by_block_number_and_index,
}
use smartbch.Filters.Matching.{filter_logs, includes, log_matches, topic_allowed, topics_match}
use smartbch.Filters.Ranges.{matching}
use smartbch.Rpc.Sbch.{prepare_height_range}
use smartbch.Rpc.Blocks.{transactions_of_block, tx_answer_at}

abbrev tx_named : ℕ → ChainTx
tx_named h = record {
  hash = h;
  index = 0;
  block_hash = h;
  block_number = 4;
  from = 1;
  to = 2;
  gas = 21000;
  gas_price = 0;
  nonce = 3;
  input = [];
  value = 10;
  cumulative_gas_used = 21000;
  contract_address = 0;
  gas_used = 21000;
  status = 1;
  status_str = [];
  logs_bloom = 1;
  logs = record { address = 5; topics = 6 ∷ []; block_number = 4; tx_hash = 0 } ∷ [];
}

abbrev blk_at : ℕ → ChainBlock
blk_at i = record {
  number = i;
  hash = i;
  parent_hash = 0;
  logs_bloom = 1;
  transactions_root = 0;
  state_root = 0;
  miner = 0;
  size = 0;
  gas_used = 21000;
  timestamp = 0;
  transactions = suc i ∷ [];
}

abbrev txs_of : ℕ → List ChainTx
txs_of i = tx_named (suc i) ∷ []

-- A node that has every block and transaction but those named 90, and no accounts.
abbrev small_node : Node
small_node = record {
  latest_height = 20;
  latest_block_num = 20;
  block_at = λ i. if i == 90 then not_stored else there (blk_at i);
  block_of = λ h. if h == 90 then not_stored else there (blk_at h);
  tx_of = λ h. if h == 90 then not_stored else there (some (tx_named h));
  txs_at = λ i. some (txs_of i);
  nonce_of = λ a. none;
  sequence_of = λ a. none;
  storage_at = λ q s. none;
  code_of = λ a. none;
  balance_of = λ a height. not_stored;
  find_logs = λ a t i j. some [];
  check_tx = λ tx. some true;
  tx_hash_of = λ tx. length tx;
  run_tx = λ tx from estimates. (0, [], 21000);
  bloom_lookup = λ bloom x. ltb 0 bloom;
}

abbrev of_range : Filter
of_range = record { addresses = 5 ∷ []; topics = [] ∷ []; block = 0; begin = 3; end = 8 }

abbrev of_block_four : Filter
of_block_four = record of_range { block = 4 }

block_search_finds_nothing_example : logs_of (filter_backend small_node) of_block_four ≡ ([], false)
block_search_finds_nothing_example =
    block_search_finds_nothing small_node of_block_four (blk_at 4) 5 [] (λ x. refl) refl refl refl

-- The block that this search looks into has a log that matches.
block_four_has_one : matching of_block_four (map full_logs (txs_of 4)) ≡ full_logs (tx_named 5)
unfolding filter_logs log_matches includes topics_match topic_allowed
block_four_has_one = refl

-- Without an address the same block's log is found.
wild_block_search_example :
    logs_of (filter_backend small_node) (record of_block_four { addresses = [] })
    ≡ (keep_if (λ log. leb 1 (length log.topics)) (concat_logs (map full_logs (txs_of 4))), false)
wild_block_search_example =
    wild_block_search small_node (record of_block_four { addresses = [] }) (blk_at 4) (txs_of 4)
      refl refl refl (refl, (refl, tt)) (refl, tt) refl (refl, tt)

transactions_of_block_example :
    (get_transaction_by_block_number_and_index small_node 4 0 ≡ tx_answer_at (txs_of 4) 0)
    × (get_transaction_by_block_hash_and_index small_node 4 0 ≡ tx_answer_at (txs_of 4) 0)
    × (get_block_transaction_count_by_number small_node 4 ≡ some 1)
    × (get_block_transaction_count_by_hash small_node 4 ≡ some 1)
transactions_of_block_example =
    transactions_of_block small_node 4 0 (blk_at 4) (txs_of 4) refl refl (refl, (refl, tt))
      (omega arith) (omega arith)

prepare_height_range_lem_example :
    (IsBetween 6 (prepare_height_range small_node 8 5)
      ↔ (((8 ≤ 6) × (6 ≤ 5)) ⊎ ((5 ≤ 6) × (6 ≤ 8))))
    × (((prepare_height_range small_node 8 5).0 < (prepare_height_range small_node 8 5).1)
        ↔ (8 ≤ 5))
prepare_height_range_lem_example =
    prepare_height_range_lem small_node 8 5 6 (omega arith) (omega arith)
