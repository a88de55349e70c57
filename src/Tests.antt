-- ===== src/Tests.antt =====
-- Tests of the modelled code and examples of its theorems: a world state with two validators, and a
-- run of the watcher.
pub mod Codec
pub mod World
pub mod Contract
pub mod Edges
pub mod Mainnet
pub mod Node
pub mod Queries
pub mod Events
pub mod Packing
pub mod Requests
pub mod Commits
