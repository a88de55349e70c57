-- ===== src/Backend.antt =====
-- api/backend.go: the service between the RPC handlers and the node. What it asks moeingevm's contexts,
-- the mempool and the transaction runner for is the record `Node`.
pub mod Search
use smartbch.Base.{
  Bool, List, Option, [], false, if◌then◌else◌, map, none, some, true, ℕ, ◌==◌, ◌∷◌,
}
use smartbch.Filters.Search.{Backend, Fetched, Header, absent, fetch_failed, fetched, minus_one}
use smartbch.Filters.Matching.{Log}
use smartbch.Tests.World.{contract}

-- What a look into a store gives: a value, the error that it is not there, or another error.
pub data Lookup (A : Type 0) : Type 0 where
  there : A → Lookup A
  not_stored store_failed : Lookup A

pub record ChainTx : Type 0 where
  pub hash : ℕ
  pub index : ℕ
  pub block_hash : ℕ
  pub block_number : ℕ
  pub from : ℕ
  pub to : ℕ
  pub gas : ℕ
  pub gas_price : ℕ
  pub nonce : ℕ
  pub input : List ℕ
  pub value : ℕ
  pub cumulative_gas_used : ℕ
  pub contract_address : ℕ
  pub gas_used : ℕ
  pub status : ℕ
  pub status_str : List ℕ
  pub logs_bloom : ℕ
  pub logs : List Log

pub record ChainBlock : Type 0 where
  pub number : ℕ
  pub hash : ℕ
  pub parent_hash : ℕ
  pub logs_bloom : ℕ
  pub transactions_root : ℕ
  pub state_root : ℕ
  pub miner : ℕ
  pub size : ℕ
  pub gas_used : ℕ
  pub timestamp : ℕ
  pub transactions : List ℕ

-- A message to be run, without a signature.
pub record CallTx : Type 0 where
  pub nonce : ℕ
  pub to : Option ℕ
  pub value : ℕ
  pub gas : ℕ
  pub gas_price : ℕ
  pub payload : List ℕ

-- A block comes with no error only, while a transaction may be nil without one. `check_tx` is the
-- answer of the mempool: none where it fails, and else whether the code is OK.
pub record Node : Type 0 where
  pub latest_height : ℕ
  pub latest_block_num : ℕ
  pub block_at : ℕ → Lookup ChainBlock
  pub block_of : ℕ → Lookup ChainBlock
  pub tx_of : ℕ → Lookup (Option ChainTx)
  pub txs_at : ℕ → Option (List ChainTx)
  pub nonce_of : ℕ → Option ℕ
  pub sequence_of : ℕ → Option ℕ
  pub storage_at : ℕ → ℕ → Option (List ℕ)
  pub code_of : ℕ → Option (List ℕ × List ℕ)
  pub balance_of : ℕ → ℕ → Lookup ℕ
  pub find_logs : List ℕ → List (List ℕ) → ℕ → ℕ → Option (List Log)
  pub check_tx : List ℕ → Option Bool
  pub tx_hash_of : List ℕ → ℕ
  pub run_tx : CallTx → ℕ → Bool → ℕ × List ℕ × ℕ
  pub bloom_lookup : ℕ → ℕ → Bool

abbrev pub set_tx_hash : ℕ → Log → Log
set_tx_hash hash log = record log { tx_hash = hash }

-- `header, _ := HeaderByNumber(...)`
abbrev pub header_if_any : Fetched Header → Option Header
header_if_any (fetched header) = some header
header_if_any absent = none
header_if_any fetch_failed = none

module _ (n : Node) where
  unfoldable pub get_storage_at : ℕ → ℕ → ℕ → Option (List ℕ)
  get_storage_at address key block_number =
      if block_number == minus_one
      then elim (n.sequence_of address) [ none ↦ none | some seq ↦ n.storage_at seq key ]
      else none

  -- The code and its hash, both empty where there is none.
  unfoldable pub get_code : ℕ → ℕ → List ℕ × List ℕ
  get_code contract block_number =
      if block_number == minus_one
      then elim (n.code_of contract) [ none ↦ ([], []) | some info ↦ info ]
      else ([], [])

  unfoldable pub get_balance : ℕ → ℕ → Lookup ℕ
  get_balance owner height = n.balance_of owner height

  unfoldable pub get_nonce : ℕ → Lookup ℕ
  get_nonce address = elim (n.nonce_of address) [ none ↦ not_stored | some nonce ↦ there nonce ]

  -- The hash, the number and the index of its block are fields of the transaction.
  unfoldable pub get_transaction : ℕ → Option ChainTx
  get_transaction tx_hash = elim (n.tx_of tx_hash) [
    | there tx ↦ tx
    | not_stored ↦ none
    | store_failed ↦ none
  ]

  unfoldable pub block_by_hash : ℕ → Lookup ChainBlock
  block_by_hash hash = n.block_of hash

  unfoldable pub block_by_number : ℕ → Lookup ChainBlock
  block_by_number number = n.block_at number

  unfoldable pub current_block : Lookup ChainBlock
  current_block = n.block_at n.latest_height

  -- `none` is an error: the mempool's, or the code of the answer. The hash is Tendermint's.
  unfoldable pub broadcast_tx_sync : List ℕ → Option ℕ
  broadcast_tx_sync tx = elim (n.check_tx tx) [
    | none ↦ none
    | some ok ↦ if ok then some (n.tx_hash_of tx) else none
  ]

  unfoldable pub call_tx : CallTx → ℕ → ℕ × List ℕ
  call_tx tx sender = let ran = n.run_tx tx sender false in (ran.0, ran.1)

  unfoldable pub estimate_gas : CallTx → ℕ → ℕ × List ℕ × ℕ
  estimate_gas tx sender = n.run_tx tx sender true

  unfoldable pub header_by_number : ℕ → Fetched Header
  header_by_number number =
      elim (n.block_at (if number == minus_one then n.latest_block_num else number)) [
        | there block ↦
            fetched
              (record { number = block.number; block_hash = block.hash; bloom = block.logs_bloom })
        | not_stored ↦ absent
        | store_failed ↦ absent
      ]

  -- The bloom filter of the header is not set.
  unfoldable pub header_by_hash : ℕ → Fetched Header
  header_by_hash hash = elim (n.block_of hash) [
    | there block ↦ fetched (record { number = block.number; block_hash = block.hash; bloom = 0 })
    | not_stored ↦ fetch_failed
    | store_failed ↦ fetch_failed
  ]

  unfoldable pub get_receipts : ℕ → Option (List (List Log))
  get_receipts hash = some []

  -- The loop of `GetLogs` over the transactions of a block.
  unfoldable pub logs_of_txs : List ℕ → List (List Log)
  logs_of_txs [] = []
  logs_of_txs (tx_hash ∷ hashes) =
      let rest = logs_of_txs hashes in
      elim (n.tx_of tx_hash) [
        | there tx ↦ elim tx [ none ↦ rest | some t ↦ map (set_tx_hash t.hash) t.logs ∷ rest ]
        | not_stored ↦ rest
        | store_failed ↦ rest
      ]

  unfoldable pub get_block_logs : ℕ → Option (List (List Log))
  get_block_logs hash = elim (n.block_of hash) [
    | there block ↦ some (logs_of_txs block.transactions)
    | not_stored ↦ some []
    | store_failed ↦ some []
  ]

  abbrev pub bloom_sections : ℕ × ℕ
  bloom_sections = (4096, 0)

  -- The backend as the filters see it. Without sections no session of the matcher is started.
  abbrev pub filter_backend : Backend
  filter_backend = record {
    header_by_hash = header_by_hash;
    header_by_number = header_by_number;
    latest_header = header_if_any (header_by_number minus_one);
    get_logs = get_block_logs;
    get_receipts = get_receipts;
    bloom_status = bloom_sections;
    bloom_lookup = n.bloom_lookup;
    matches = λ begin end. ([], false);
  }
