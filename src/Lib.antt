-- ===== src/Lib.antt =====
-- The core of the smartBCH node: the staking contract, which is part of the chain's consensus, the
-- watcher, which learns from Bitcoin Cash's mainnet who may validate, the application that Tendermint
-- drives, and the log filters of the RPC server.
--
-- The parts, and the files that model them:
-- * staking/types/types.go, the staking state (`StakingInfo`, `Validator`, `PendingReward`) and its
--   methods: Staking/Info.antt. The method names are the code's in lower case with underscores.
-- * staking/staking.go, the staking contract. How its state is kept in the world state (`Init`,
--   `LoadStakingAcc`, `SaveStakingInfo`, `LoadMinGasPrice`, `SaveMinGasPrice`): Staking/State.antt. The
--   entry `Execute`: Staking/Execute.antt; `externalOp`: Staking/External.antt; `handleMinGasPrice`:
--   Staking/GasPrice.antt; `Run` and `RequiredGas`: Staking/SumPower.antt; `Slash` and `incrAllBurnt`:
--   Staking/Slash.antt; `DistributeFee`: Staking/Fee.antt; `SwitchEpoch`, `endEpoch`,
--   `updateVotingPower` and `clearUp`: Staking/Epoch.antt, with the loop of `clearUp` that deletes from
--   the slice that it ranges over in Staking/Deletion.antt.
-- * staking/types/types_gen.go, how the staking state is written to bytes and read: Staking/Codec.antt,
--   with `MarshalMsg` in Staking/Codec/Marshal.antt and `UnmarshalMsg` in Staking/Codec/Unmarshal.antt.
--   The contract uses it through the record `Context`.
-- * staking/watcher.go, the watcher: Watcher.antt, with the counting of nominations in
--   Watcher/Counting.antt and the blocks of the mainnet in Watcher/Blocks.antt. Its epochs go to
--   `SwitchEpoch`, whose voting powers are the nominations of an epoch.
-- * staking/rpcclient.go, how the client of the mainnet node makes a block of the node's answers:
--   RpcClient.antt.
-- * app/app.go, the application behind Tendermint's calls: its state in App/State.antt, `CheckTx` in
--   App/CheckTx.antt, `InitChain` in App/InitChain.antt, `BeginBlock`, `DeliverTx` and `EndBlock` in
--   App/Blocks.antt, `Commit` with `refresh` and `postCommit` in App/Commit.antt. A block is the calls
--   `begin_block`, `deliver_tx`, `end_block`, `commit` and `post_commit`; the last runs on its own in the
--   code, under the lock that `Commit` takes. What `Commit` publishes of a block is in App/Publish.antt.
-- * rpc/api/filters, the search for logs (geth_filter.go) in Filters/Matching.antt and
--   Filters/Search.antt, and the filters that clients install and poll (filter_api.go) as a state
--   machine over events in Filters/Api.antt; `GetLogs` and
--   `GetFilterLogs` in Filters/Requests.antt. The event loop behind them (geth_filter_system.go) is in
--   Filters/Events.antt, and the loop and the filters together, with what the chain broadcasts, in
--   Filters/Broadcast.antt.
-- * api/backend.go, the service between the handlers and the node: Backend.antt. It is a backend of the
--   filters, by `filter_backend`.
-- * rpc/api, the handlers: eth_api.go in Rpc/Eth.antt, with the answers and errors of eth_api_utils.go
--   and errors.go in Rpc/Resp.antt, and sbch_api.go in Rpc/Sbch.antt.
-- * Tests.antt and the files below it run the code in a small world and on a small chain.
--
-- The numbers: a `uint256`, a `[32]byte` that holds one, an address and a public key are natural
-- numbers; the arithmetic of the code is written modulo 2 ^ 256 or 2 ^ 64. An `int64` of the staking
-- state is its bit pattern below 2 ^ 64. The heights and times of mainnet blocks are natural numbers,
-- far below 2 ^ 63. A panic is a value (`Outcome` in Base/Panics.antt), so that a theorem says where the
-- code panics. The watcher's channel holds one epoch: a send that finds it full is such a value too
-- (`channel_full`), since the round does not end before a receive; a receive is `take_epoch`, between
-- two rounds, which gives the same as one while the send waits.
--
-- What is not part of the repository is a parameter: moeingevm's `Context` and `AccountInfo` with a
-- codec (the record `Context` in Staking/Context.antt, whose laws say that a read gives what
-- was last written), its transfer to the black hole, its engine and checks (the record `Machine` in
-- App/Machine.antt), the mainnet node's answers, what the handlers' backend asks the stores, the
-- mempool and the transaction runner (`Node` in Backend.antt), the package msgp (`Msgp` in
-- Staking/Codec.antt), and the orders in which Go ranges over a map (`MapOrders` in Staking/Epoch.antt,
-- `visit` in Filters/Events.antt). The search of the filters takes any backend (`Backend` in
-- Filters/Search.antt).
--
-- The loops are structural recursions on the list, or on the number of rounds that the code counts
-- down; the loop of `ClearOldData` goes down on the height, and that of sumVotingPower has the length of
-- its input as fuel, of which it needs a thirty-second; the search over a range of blocks has the number
-- of the blocks as fuel. `Run` never ends: its model is a round, and a number of rounds.
--
-- Events come one at a time: the event loop takes one event after the other, and a delivery to a filter
-- is received with the event that sent it, since the loop waits until the filter's goroutine has it.
--
-- Not modelled: of the application the set-up, the stores and the getters; of the codec the stream
-- methods and the types that are not stored; of the RPC APIs the handlers that answer a constant or pass
-- a call on, `Syncing`, and the servers (rpc/); the requests to the mainnet node, and the commands (cmd/).
-- Prints, logs and the texts of errors have no model, nor has the waiting of the watcher.
pub mod Base
pub mod Staking
pub mod Watcher
pub mod RpcClient
pub mod App
pub mod Filters
pub mod Backend
pub mod Rpc
pub mod Tests
