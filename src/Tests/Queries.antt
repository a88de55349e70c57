-- ===== src/Tests/Queries.antt =====
-- Examples of the theorems about the log filters (rpc/api/filters) and the client of Bitcoin Cash's
-- node (staking/rpcclient.go).
use smartbch.Base.{
  List, [], add64, arith, be_bytes, be_nat, be_nat_from, false, foldl, ltb, none, refl, returns,
  some, sub64, suc, true, zero, ℕ, ◌%◌, ◌++◌, ◌+◌, ◌==◌, ◌||◌, ◌∷◌, ◌≡◌,
}
use smartbch.Filters.Search.{
  Backend, Filter, Header, fetched, block_logs, check_matches, concat_logs, logs_of, unindexed_logs,
}
use smartbch.Filters.Matching.{Log}
use smartbch.Watcher.Blocks.{BchBlock}
use smartbch.RpcClient.{
  BlockInfo, TxInfo, decode_hex, find_pubkey, get_bch_block, get_block_by_height,
  get_validator_pubkey, hex_digit, prefix, pubkey_in, strip_prefix,
}
use smartbch.Filters.Api.{
  Event, get_filter_changes, header_arrives, logs_arrive, new_filter, no_criteria, step,
  timer_fires, uninstall_filter,
}
use smartbch.Filters.Ranges.{IsChain, logs_of-range, matching, range_concat}
use smartbch.Filters.Bloom.{block_logs-check_matches}
use smartbch.Filters.Polling.{collected, new_filter-collected}
use smartbch.RpcClient.Nominations.{get_block_by_height_drops}
use smartbch.Filters.Fuel.{unindexed_logs-fuel}
use smartbch.Filters.Requests.{get_filter_logs, get_logs, new_filter-get_filter_logs}

-- A chain with one log in each block, whose address is 1 in the even blocks and 2 in the odd ones.
abbrev lists : ℕ → List (List Log)
lists i = (record { address = 1 + i % 2; topics = 7 ∷ []; block_number = i; tx_hash = 5 } ∷ []) ∷ []

abbrev header : ℕ → Header
header i = record { number = i; block_hash = i; bloom = i }

abbrev backend : Backend
backend = record {
  header_by_hash = λ h. fetched (header h);
  header_by_number = λ i. fetched (header i);
  latest_header = some (header 20);
  get_logs = λ h. some (lists h);
  get_receipts = λ h. none;
  bloom_status = (4096, 0);
  bloom_lookup = λ bloom x. x == 7 || x == 1 + bloom % 2;
  matches = λ begin end. ([], true);
}

abbrev filter : Filter
filter = record { addresses = 2 ∷ []; topics = [] ∷ []; block = 0; begin = 3; end = 8 }

backend-IsChain : IsChain backend 3 8 header lists
backend-IsChain = record {
  at_height = λ i low high. refl;
  with_logs = λ i low high. refl;
  in_bloom = λ i low high. ((ground arith, (refl, tt)), tt);
  full = λ i low high. (refl, tt);
}

block_logs-check_matches_example :
    block_logs backend filter (header 4) ≡ check_matches backend filter (header 4)
block_logs-check_matches_example =
    block_logs-check_matches backend filter (header 4) {lists = lists 4} refl
      (backend-IsChain.in_bloom 4 (omega arith) (omega arith))

logs_of-range_example :
    logs_of backend filter ≡ (range_concat (λ i. matching filter (lists i)) 3 6, false)
logs_of-range_example =
    logs_of-range backend filter header lists (header 20) backend-IsChain refl refl refl
      (omega arith) (omega arith)

unindexed_logs-fuel_example :
    unindexed_logs backend (sub64 (add64 8 1) 3 + 7) filter 3 8
    ≡ unindexed_logs backend (sub64 (add64 8 1) 3) filter 3 8
unindexed_logs-fuel_example = unindexed_logs-fuel backend filter 7 3 8 (omega arith) (omega arith)

abbrev happenings : List Event
happenings =
    logs_arrive 5 (concat_logs (lists 1))
    ∷ header_arrives 6 40
    ∷ get_filter_changes 5
    ∷ timer_fires 5
    ∷ get_filter_changes 5
    ∷ uninstall_filter 6
    ∷ logs_arrive 5 (concat_logs (lists 2))
    ∷ []

new_filter-collected_example :
    collected 5 (step [] (new_filter 5 no_criteria)) happenings
    ≡ concat_logs (lists 1) ++ concat_logs (lists 2)
new_filter-collected_example =
    new_filter-collected 5 no_criteria [] happenings
      (refl, (refl, (refl, (refl, (refl, (refl, (refl, tt)))))))

-- What the history store is taken to find is the log of a block.
new_filter-get_filter_logs_example :
    get_filter_logs backend
      (λ addresses topics begin end. some (concat_logs (lists begin)))
      20
      (foldl step (step [] (new_filter 5 no_criteria)) happenings)
      5
    ≡ get_logs backend
        (λ addresses topics begin end. some (concat_logs (lists begin)))
        20
        no_criteria
new_filter-get_filter_logs_example =
    new_filter-get_filter_logs backend
      (λ addresses topics begin end. some (concat_logs (lists begin))) 20 5 no_criteria []
      happenings (refl, (refl, (refl, (refl, (refl, (refl, (refl, tt)))))))

-- A coinbase transaction that nominates the key 0xabab…ab.
abbrev ab_digits : ℕ → List ℕ
ab_digits zero = []
ab_digits (suc n) = 97 ∷ 98 ∷ ab_digits n

abbrev coinbase : TxInfo
coinbase = record { vout_list = record { asm = some (prefix ++ ab_digits 32) } ∷ [] }

-- The key is found, and yet the answer is that there is none.
nominated : (pubkey : ℕ) × (get_validator_pubkey coinbase ≡ (pubkey, false)) × (ltb 0 pubkey ≡ true)
unfolding get_validator_pubkey find_pubkey pubkey_in strip_prefix decode_hex hex_digit be_nat
    be_nat_from be_bytes
nominated = (_, refl, refl)

abbrev block_info : BlockInfo
block_info = record {
  hash = ab_digits 32;
  height = 100;
  time = 5000;
  tx = (48 ∷ 49 ∷ []) ∷ [];
  previous_blockhash = ab_digits 32;
}

fetched_block :
    (blk : BchBlock) × (get_block_by_height
        (λ h. some (48 ∷ []))
        (λ h. some block_info)
        (λ t. some coinbase)
        100
      ≡ returns (some blk))
unfolding get_block_by_height get_bch_block get_validator_pubkey find_pubkey pubkey_in strip_prefix
    decode_hex hex_digit be_nat be_nat_from be_bytes
fetched_block = (_, refl)

get_block_by_height_drops_example : fetched_block.0.nominations ≡ []
get_block_by_height_drops_example =
    get_block_by_height_drops (λ h. some (48 ∷ [])) (λ h. some block_info) (λ t. some coinbase) 100
      fetched_block.1
