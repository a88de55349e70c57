-- ===== src/App.antt =====
-- app/app.go: the application that Tendermint drives through the ABCI calls.
pub mod Machine
pub mod State
pub mod CheckTx
pub mod Blocks
pub mod Commit
pub mod InitChain
pub mod Rounds
pub mod Voters
pub mod Genesis
pub mod SenderCache
pub mod CacheEntries
pub mod CacheSize
pub mod Publish
pub mod Money
pub mod Funds
