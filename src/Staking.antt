-- ===== src/Staking.antt =====
-- The staking module of the chain: staking/types/types.go and staking/staking.go.
pub mod Info
pub mod Context
pub mod State
pub mod External
pub mod Funds
pub mod GasPrice
pub mod Slash
pub mod Fee
pub mod Deletion
pub mod Epoch
pub mod Execute
pub mod SumPower
pub mod Codec
