-- ===== src/Rpc/Eth.antt =====
-- rpc/api/eth_api.go: the handlers of the eth requests that have logic of their own.
use smartbch.Base.{
  Bool, List, Map, Option, [], get_elem?, if◌then◌else◌, inl, inr, leb_i64, length, lookup, ltb,
  none, not, some, ℕ, ◌%◌, ◌^◌, ◌∷◌, ◌⊎◌,
}
use smartbch.Rpc.Resp.{
  BlockResp, CallErr, ReceiptResp, SendTxArgs, StatusName, TxResp, block_to_rpc_resp,
  create_geth_tx_from_send_tx_args, creation_without_data, data_and_input_differ, default_gas_price,
  default_rpc_gas_limit, no_nonce, or_default, to_call_err, tx_made, tx_to_receipt_rpc_resp,
  tx_to_rpc_resp,
}
use smartbch.Backend.{
  CallTx, ChainBlock, ChainTx, Lookup, Node, block_by_hash, block_by_number, broadcast_tx_sync,
  store_failed, call_tx, current_block, estimate_gas, get_balance, get_nonce, get_transaction,
  not_stored, there, get_code, get_storage_at,
}
use smartbch.Filters.Search.{minus_one}

-- What a handler answers: a value, JSON's null, or an error.
pub data Answered (A : Type 0) : Type 0 where
  answer : A → Answered A
  null_answer rpc_error : Answered A

-- The arguments of `eth_call` and `eth_estimateGas`.
pub record CallArgs : Type 0 where
  pub from : Option ℕ
  pub to : Option ℕ
  pub gas : Option ℕ
  pub gas_price : Option ℕ
  pub value : Option ℕ
  pub call_data : Option (List ℕ)

-- `Accounts` sorts the keys of a map; the bytes of two addresses compare as the numbers they spell.
unfoldable pub insert_address : ℕ → List ℕ → List ℕ
insert_address a [] = a ∷ []
insert_address a (b ∷ bs) = if ltb a b then a ∷ b ∷ bs else b ∷ insert_address a bs

unfoldable pub accounts : List ℕ → List ℕ
accounts [] = []
accounts (a ∷ addrs) = insert_address a (accounts addrs)

-- The recipient of a call that names none is the address 0.
unfoldable pub create_geth_tx_from_call_args : CallArgs → CallTx × ℕ
create_geth_tx_from_call_args args = (
  record {
    nonce = 0;
    to = some (or_default 0 args.to);
    value = or_default 0 args.value;
    gas = or_default default_rpc_gas_limit args.gas;
    gas_price = or_default default_gas_price args.gas_price;
    payload = or_default [] args.call_data;
  },
  or_default 0 args.from,
)

module _ (n : Node) where
  -- The block number that a handler is given is ignored, here and below.
  unfoldable pub get_balance_at : ℕ → ℕ → Answered ℕ
  get_balance_at addr block_num = elim (get_balance n addr minus_one) [
    | there b ↦ answer b
    | not_stored ↦ answer 0
    | store_failed ↦ rpc_error
  ]

  unfoldable pub get_code_at : ℕ → ℕ → List ℕ
  get_code_at addr block_num = (get_code n addr minus_one).0

  -- `hex_to_hash` is `common.HexToHash` (go-ethereum).
  unfoldable pub get_storage_of : (List ℕ → ℕ) → ℕ → List ℕ → ℕ → Option (List ℕ)
  get_storage_of hex_to_hash addr key block_num = get_storage_at n addr (hex_to_hash key) minus_one

  unfoldable pub get_transaction_count : ℕ → ℕ → Answered ℕ
  get_transaction_count addr block_num = elim (get_nonce n addr) [
    | there nonce ↦ answer nonce
    | not_stored ↦ rpc_error
    | store_failed ↦ rpc_error
  ]

  -- A height that is not positive stands for the current block.
  unfoldable pub get_block_by_num : ℕ → Lookup ChainBlock
  get_block_by_num height = if leb_i64 height 0 then current_block n else block_by_number n height

  -- The second half of both `GetBlockBy` handlers.
  unfoldable pub block_answer : Bool → Lookup ChainBlock → Answered BlockResp
  block_answer full_tx (there block) =
      if full_tx
      then elim (n.txs_at (block.number % 2 ^ 32)) [
        | none ↦ rpc_error
        | some txs ↦ answer (block_to_rpc_resp block txs)
      ]
      else answer (block_to_rpc_resp block [])
  block_answer full_tx not_stored = null_answer
  block_answer full_tx store_failed = rpc_error

  unfoldable pub eth_get_block_by_hash : ℕ → Bool → Answered BlockResp
  eth_get_block_by_hash hash full_tx = block_answer full_tx (block_by_hash n hash)

  unfoldable pub eth_get_block_by_number : ℕ → Bool → Answered BlockResp
  eth_get_block_by_number block_num full_tx = block_answer full_tx (get_block_by_num block_num)

  -- `nil` for every error.
  abbrev pub tx_count_of : Lookup ChainBlock → Option ℕ
  tx_count_of (there block) = some (length block.transactions)
  tx_count_of not_stored = none
  tx_count_of store_failed = none

  unfoldable pub get_block_transaction_count_by_hash : ℕ → Option ℕ
  get_block_transaction_count_by_hash hash = tx_count_of (block_by_hash n hash)

  unfoldable pub get_block_transaction_count_by_number : ℕ → Option ℕ
  get_block_transaction_count_by_number block_num = tx_count_of (get_block_by_num block_num)

  abbrev pub tx_answer : Option ChainTx → Answered TxResp
  tx_answer none = rpc_error
  tx_answer (some tx) = answer (tx_to_rpc_resp tx)

  unfoldable pub get_tx_by_idx : ChainBlock → ℕ → Answered TxResp
  get_tx_by_idx block idx = elim (get_elem? block.transactions idx) [
    | none ↦ null_answer
    | some tx_hash ↦ tx_answer (get_transaction n tx_hash)
  ]

  abbrev pub tx_of_block : ℕ → Lookup ChainBlock → Answered TxResp
  tx_of_block idx (there block) = get_tx_by_idx block idx
  tx_of_block idx not_stored = rpc_error
  tx_of_block idx store_failed = rpc_error

  unfoldable pub get_transaction_by_block_hash_and_index : ℕ → ℕ → Answered TxResp
  get_transaction_by_block_hash_and_index hash idx = tx_of_block idx (block_by_hash n hash)

  unfoldable pub get_transaction_by_block_number_and_index : ℕ → ℕ → Answered TxResp
  get_transaction_by_block_number_and_index block_num idx =
      tx_of_block idx (get_block_by_num block_num)

  unfoldable pub get_transaction_by_hash : ℕ → Answered TxResp
  get_transaction_by_hash hash = tx_answer (get_transaction n hash)

  unfoldable pub get_transaction_receipt : ℕ → Answered ReceiptResp
  get_transaction_receipt hash = elim (get_transaction n hash) [
    | none ↦ null_answer
    | some tx ↦ answer (tx_to_receipt_rpc_resp tx)
  ]

  -- `decode_tx` is `ethutils.DecodeTx` with the hash of the transaction.
  unfoldable pub send_raw_transaction : (List ℕ → Option ℕ) → List ℕ → Answered ℕ
  send_raw_transaction decode_tx tx_bytes = elim (decode_tx tx_bytes) [
    | none ↦ rpc_error
    | some hash ↦ elim (broadcast_tx_sync n tx_bytes) [
      | none ↦ rpc_error
      | some tm_hash ↦ answer hash
    ]
  ]

  -- The nonce that `SendTransaction` fills in; it stays empty where there is none.
  abbrev pub nonce_for : SendTxArgs → Option ℕ
  nonce_for args = elim args.nonce [
    | some nonce ↦ some nonce
    | none ↦ elim (get_nonce n args.from) [
      | there nonce ↦ some nonce
      | not_stored ↦ none
      | store_failed ↦ none
    ]
  ]

  -- `keys` are the accounts of the node with their private keys; `sign_tx` gives the bytes and the hash
  -- of the signed transaction (go-ethereum), or fails.
  unfoldable pub send_transaction :
      Map ℕ → (CallTx → ℕ → Option (List ℕ × ℕ)) → SendTxArgs → Answered ℕ
  send_transaction keys sign_tx args = elim (lookup args.from keys) [
    | none ↦ rpc_error
    | some key ↦ elim (create_geth_tx_from_send_tx_args (record args { nonce = nonce_for args })) [
      | tx_made tx ↦ elim (sign_tx tx key) [
        | none ↦ rpc_error
        | some (tx_bytes, hash) ↦ elim (broadcast_tx_sync n tx_bytes) [
          | none ↦ rpc_error
          | some tm_hash ↦ answer hash
        ]
      ]
      | no_nonce ↦ rpc_error
      | data_and_input_differ ↦ rpc_error
      | creation_without_data ↦ rpc_error
    ]
  ]

  -- The two calls of moeingevm's that read a status, and `abi.UnpackRevert`.
  module _ (status_is_failure : ℕ → Bool) (status_name : ℕ → StatusName)
      (unpack_revert : List ℕ → Option (List ℕ)) where
    unfoldable pub eth_call : CallArgs → List ℕ ⊎ CallErr
    eth_call args =
        let made = create_geth_tx_from_call_args args in
        let ran = call_tx n made.0 made.1 in
        if not (status_is_failure ran.0)
        then inl ran.1
        else inr (to_call_err unpack_revert (status_name ran.0) ran.1)

    unfoldable pub eth_estimate_gas : CallArgs → ℕ ⊎ CallErr
    eth_estimate_gas args =
        let made = create_geth_tx_from_call_args args in
        let ran = estimate_gas n made.0 made.1 in
        if not (status_is_failure ran.0)
        then inl ran.2
        else inr (to_call_err unpack_revert (status_name ran.0) ran.1)
