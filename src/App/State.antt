-- ===== src/App/State.antt =====
-- app/app.go: the application's state and its codes.
use smartbch.Base.{List, Map, Option, ℕ}
use smartbch.App.Machine.{Machine, Block, GasUsedInfo, EvmLog}
use smartbch.Staking.Context.{Context}
use smartbch.Staking.Info.{StakingInfo, Validator}
use smartbch.Watcher.Blocks.{Epoch}

pub data Code : Type 0 where
  code_type_ok cannot_decode_tx cannot_recover_sender account_nonce_mismatch : Code
  cannot_pay_gas_fee gas_limit_invalid invalid_min_gas_price has_pending_tx mempool_busy : Code

pub record SenderAndHeight : Type 0 where
  pub sender : ℕ
  pub height : ℕ

-- A block in the history store, with the logs that are published.
pub record StoredBlock : Type 0 where
  pub info : Block
  pub logs : List EvmLog

module _ (c : Context) (m : Machine c) where
  -- The sets of addresses are lists. `epoch_chan` is the watcher's channel, `readonly` the global
  -- variable of the staking contract.
  pub record App : Type 0 where
    pub retain_blocks : ℕ
    pub num_kept_blocks : ℕ
    pub curr_height : ℕ
    pub trunk : c.World
    pub check_trunk : c.World
    pub block : Block
    pub slash_validators : List ℕ
    pub last_commit_info : List ℕ
    pub last_proposer : ℕ
    pub last_gas : GasUsedInfo
    pub last_min_gas_price : ℕ
    pub tx_engine : m.Engine
    pub reorder_seed : ℕ
    pub touched_addrs : List ℕ
    pub epoch_chan : List Epoch
    pub epoch_list : List Epoch
    pub curr_validators : List Validator
    pub sig_cache : Map SenderAndHeight
    pub sig_cache_size : ℕ
    pub sep206_sender_set : List ℕ
    pub recheck_counter : ℕ
    pub recheck_threshold : ℕ
    pub readonly : Option StakingInfo
