-- ===== src/Rpc/Sbch.antt =====
-- rpc/api/sbch_api.go: the handlers of the chain's own requests. The searches for transactions and the
-- counts are the backend's, which passes them on to the history store.
use smartbch.Base.{List, Option, add64, if◌then◌else◌, ltb_i64, none, some, ℕ, ◌%◌, ◌==◌, ◌^◌}
use smartbch.Rpc.Eth.{Answered, answer, rpc_error}
use smartbch.Backend.{ChainTx, Node}
use smartbch.Filters.Matching.{Log}
use smartbch.Rpc.Resp.{ReceiptResp, TxResp, txs_to_receipt_rpc_resp, txs_to_rpc_resp}
use smartbch.Tests.World.{contract}
use smartbch.Filters.Search.{minus_one}

pub data CountKind : Type 0 where
  kind_from kind_to kind_both kind_other : CountKind

-- What the store is asked for; a search has a start, an end and a limit.
pub record HistoryStore : Type 0 where
  pub tx_by_src : ℕ → ℕ → ℕ → ℕ → Option (List ChainTx)
  pub tx_by_dst : ℕ → ℕ → ℕ → ℕ → Option (List ChainTx)
  pub tx_by_addr : ℕ → ℕ → ℕ → ℕ → Option (List ChainTx)
  pub basic_logs : ℕ → List ℕ → ℕ → ℕ → ℕ → Option (List Log)
  pub from_count : ℕ → ℕ
  pub to_count : ℕ → ℕ
  pub sep20_from_count : ℕ → ℕ → ℕ
  pub sep20_to_count : ℕ → ℕ → ℕ

abbrev pub latest_if : Node → ℕ → ℕ
latest_if n height = if height == minus_one then n.latest_height else height

abbrev pub tx_list_answer : Option (List ChainTx) → Answered (List TxResp)
tx_list_answer none = rpc_error
tx_list_answer (some txs) = answer (txs_to_rpc_resp txs)

-- Heights are `int64`s as bit patterns; the results are `uint32`s.
unfoldable pub prepare_height_range : Node → ℕ → ℕ → ℕ × ℕ
prepare_height_range n start_height end_height =
    let start = latest_if n start_height in
    let finish = latest_if n end_height in
    if ltb_i64 finish start
    then (add64 start 1 % 2 ^ 32, finish % 2 ^ 32)
    else (start % 2 ^ 32, add64 finish 1 % 2 ^ 32)

-- `GetAddressCount` and `GetSep20AddressCount` on the two counts.
unfoldable pub count_by_kind : CountKind → ℕ → ℕ → ℕ
count_by_kind kind_from from_count to_count = from_count
count_by_kind kind_to from_count to_count = to_count
count_by_kind kind_both from_count to_count = add64 from_count to_count
count_by_kind kind_other from_count to_count = 0

module _ (n : Node) (h : HistoryStore) where
  unfoldable pub get_tx_list_by_height : ℕ → Answered (List ReceiptResp)
  get_tx_list_by_height height = elim (n.txs_at (latest_if n height % 2 ^ 32)) [
    | none ↦ rpc_error
    | some txs ↦ answer (txs_to_receipt_rpc_resp txs)
  ]

  unfoldable pub query_tx_by_src : ℕ → ℕ → ℕ → ℕ → Answered (List TxResp)
  query_tx_by_src addr start_height end_height limit =
      let range = prepare_height_range n start_height end_height in
      tx_list_answer (h.tx_by_src addr range.0 range.1 (limit % 2 ^ 32))

  unfoldable pub query_tx_by_dst : ℕ → ℕ → ℕ → ℕ → Answered (List TxResp)
  query_tx_by_dst addr start_height end_height limit =
      let range = prepare_height_range n start_height end_height in
      tx_list_answer (h.tx_by_dst addr range.0 range.1 (limit % 2 ^ 32))

  unfoldable pub query_tx_by_addr : ℕ → ℕ → ℕ → ℕ → Answered (List TxResp)
  query_tx_by_addr addr start_height end_height limit =
      let range = prepare_height_range n start_height end_height in
      tx_list_answer (h.tx_by_addr addr range.0 range.1 (limit % 2 ^ 32))

  unfoldable pub sbch_query_logs : ℕ → List ℕ → ℕ → ℕ → ℕ → Answered (List Log)
  sbch_query_logs addr topics start_height end_height limit =
      elim (h.basic_logs addr topics (latest_if n start_height % 2 ^ 32)
        (latest_if n end_height % 2 ^ 32) (limit % 2 ^ 32)) [
          | none ↦ rpc_error
          | some logs ↦ answer logs
        ]

  unfoldable pub get_address_count : CountKind → ℕ → ℕ
  get_address_count kind addr = count_by_kind kind (h.from_count addr) (h.to_count addr)

  unfoldable pub get_sep20_address_count : CountKind → ℕ → ℕ → ℕ
  get_sep20_address_count kind contract addr =
      count_by_kind kind (h.sep20_from_count contract addr) (h.sep20_to_count contract addr)
