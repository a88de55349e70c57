-- ===== src/Rpc/Resp.antt =====
-- rpc/api/eth_api_utils.go and errors.go: what the handlers make of arguments, blocks, transactions and
-- failed calls. A field of an answer that is always the same is left out, but for the bloom filter.
use smartbch.Base.{
  Bool, List, Option, [], bytes_eq, false, if◌then◌else◌, length, ltb, none, not, some, true, ℕ,
  ◌&&◌, ◌-◌, ◌==◌, ◌^◌, ◌∷◌,
}
use smartbch.Backend.{CallTx, ChainBlock, ChainTx}
use smartbch.Filters.Matching.{Log}

pub record SendTxArgs : Type 0 where
  pub from : ℕ
  pub to : Option ℕ
  pub gas : Option ℕ
  pub gas_price : Option ℕ
  pub value : Option ℕ
  pub nonce : Option ℕ
  pub data_field : Option (List ℕ)
  pub input_field : Option (List ℕ)

abbrev pub default_rpc_gas_limit : ℕ
default_rpc_gas_limit = 10000000

abbrev pub default_gas_price : ℕ
default_gas_price = 20000000000

-- A transaction, or the reason why there is none.
pub data TxFromArgs : Type 0 where
  tx_made : CallTx → TxFromArgs
  no_nonce data_and_input_differ creation_without_data : TxFromArgs

abbrev pub or_default {ℓ} : {A : Type ℓ} → A → Option A → A
or_default d none = d
or_default d (some x) = x

-- Whether both are set and not equal.
abbrev pub are_at_odds : Option (List ℕ) → Option (List ℕ) → Bool
are_at_odds (some d) (some i) = not (bytes_eq d i)
are_at_odds d i = false

abbrev pub chosen_input : Option (List ℕ) → Option (List ℕ) → List ℕ
chosen_input d (some i) = i
chosen_input d none = or_default [] d

abbrev pub is_none {ℓ} : {A : Type ℓ} → Option A → Bool
is_none none = true
is_none (some x) = false

-- A value that is not given is 0 in the transaction.
unfoldable pub create_geth_tx_from_send_tx_args : SendTxArgs → TxFromArgs
create_geth_tx_from_send_tx_args args = elim args.nonce [
  | none ↦ no_nonce
  | some nonce ↦
      let input = chosen_input args.data_field args.input_field in
      if are_at_odds args.data_field args.input_field
      then data_and_input_differ
      else if is_none args.to && (length input == 0)
      then creation_without_data
      else tx_made (record {
        nonce = nonce;
        to = args.to;
        value = or_default 0 args.value;
        gas = or_default default_rpc_gas_limit args.gas;
        gas_price = or_default default_gas_price args.gas_price;
        payload = input;
      })
]

pub record TxResp : Type 0 where
  pub block_hash : ℕ
  pub block_number : ℕ
  pub from : ℕ
  pub gas : ℕ
  pub gas_price : ℕ
  pub hash : ℕ
  pub input : List ℕ
  pub nonce : ℕ
  pub to : ℕ
  pub transaction_index : ℕ
  pub value : ℕ

unfoldable pub tx_to_rpc_resp : ChainTx → TxResp
tx_to_rpc_resp tx = record {
  block_hash = tx.block_hash;
  block_number = tx.block_number;
  from = tx.from;
  gas = tx.gas;
  gas_price = tx.gas_price;
  hash = tx.hash;
  input = tx.input;
  nonce = tx.nonce;
  to = tx.to;
  transaction_index = tx.index;
  value = tx.value;
}

unfoldable pub txs_to_rpc_resp : List ChainTx → List TxResp
txs_to_rpc_resp [] = []
txs_to_rpc_resp (tx ∷ txs) = tx_to_rpc_resp tx ∷ txs_to_rpc_resp txs

pub data RespTxs : Type 0 where
  tx_hashes : List ℕ → RespTxs
  full_txs : List TxResp → RespTxs

pub record BlockResp : Type 0 where
  pub number : ℕ
  pub hash : ℕ
  pub parent_hash : ℕ
  pub logs_bloom : ℕ
  pub transactions_root : ℕ
  pub state_root : ℕ
  pub miner : ℕ
  pub size : ℕ
  pub gas_limit : ℕ
  pub gas_used : ℕ
  pub timestamp : ℕ
  pub transactions : RespTxs

abbrev pub block_gas_limit : ℕ
block_gas_limit = 200000000

unfoldable pub block_to_rpc_resp : ChainBlock → List ChainTx → BlockResp
block_to_rpc_resp block txs = record {
  number = block.number;
  hash = block.hash;
  parent_hash = block.parent_hash;
  logs_bloom = 0;
  transactions_root = block.transactions_root;
  state_root = block.state_root;
  miner = block.miner;
  size = block.size;
  gas_limit = block_gas_limit;
  gas_used = block.gas_used;
  timestamp = block.timestamp;
  transactions =
      if ltb 0 (length txs) then full_txs (txs_to_rpc_resp txs) else tx_hashes block.transactions;
}

pub record ReceiptResp : Type 0 where
  pub transaction_hash : ℕ
  pub transaction_index : ℕ
  pub block_hash : ℕ
  pub block_number : ℕ
  pub from : ℕ
  pub to : ℕ
  pub cumulative_gas_used : ℕ
  pub contract_address : Option ℕ
  pub gas_used : ℕ
  pub logs : List Log
  pub logs_bloom : ℕ
  pub status : ℕ
  pub status_str : Option (List ℕ)

abbrev pub receipt_status_failed : ℕ
receipt_status_failed = 0

unfoldable pub tx_to_receipt_rpc_resp : ChainTx → ReceiptResp
tx_to_receipt_rpc_resp tx = record {
  transaction_hash = tx.hash;
  transaction_index = tx.index;
  block_hash = tx.block_hash;
  block_number = tx.block_number;
  from = tx.from;
  to = tx.to;
  cumulative_gas_used = tx.cumulative_gas_used;
  contract_address = if tx.contract_address == 0 then none else some tx.contract_address;
  gas_used = tx.gas_used;
  logs = tx.logs;
  logs_bloom = tx.logs_bloom;
  status = tx.status;
  status_str = if tx.status == receipt_status_failed then some tx.status_str else none;
}

unfoldable pub txs_to_receipt_rpc_resp : List ChainTx → List ReceiptResp
txs_to_receipt_rpc_resp [] = []
txs_to_receipt_rpc_resp (tx ∷ txs) = tx_to_receipt_rpc_resp tx ∷ txs_to_receipt_rpc_resp txs

-- The status of a run as moeingevm names it.
pub data StatusName : Type 0 where
  revert_status invalid_instruction_status : StatusName
  named_status : List ℕ → StatusName

-- The error of a call: with the code 3, the reason where there is one, and the data; or with the
-- default code.
pub data CallErr : Type 0 where
  revert_error : Option (List ℕ) → List ℕ → CallErr
  invalid_opcode : CallErr
  status_error : List ℕ → CallErr

-- `unpack_revert` is `abi.UnpackRevert` (go-ethereum).
module _ (unpack_revert : List ℕ → Option (List ℕ)) where
  unfoldable pub new_revert_error : List ℕ → CallErr
  new_revert_error ret_data =
      revert_error (if ltb 0 (length ret_data) then unpack_revert ret_data else none) ret_data

  unfoldable pub to_call_err : StatusName → List ℕ → CallErr
  to_call_err revert_status ret_data = new_revert_error ret_data
  to_call_err invalid_instruction_status ret_data = invalid_opcode
  to_call_err (named_status s) ret_data = status_error s

unfoldable pub error_code : CallErr → ℕ
error_code (revert_error reason ret_data) = 3
error_code invalid_opcode = 2 ^ 64 - 32000
error_code (status_error s) = 2 ^ 64 - 32000
