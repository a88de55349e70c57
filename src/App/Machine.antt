-- ===== src/App/Machine.antt =====
-- What the application (app/app.go) uses of moeingevm (the transaction engine, the account checks, the
-- system account, the blocks) and of Tendermint's and go-ethereum's cryptography, none of which is part
-- of the repository.
use smartbch.Base.{List, Option, ℕ, ◌≡◌}
use smartbch.Staking.Context.{Context}

-- A transaction as the mempool sees it.
pub record Tx : Type 0 where
  pub hash : ℕ
  pub nonce : ℕ
  pub gas : ℕ
  pub gas_price : ℕ

pub record EvmLog : Type 0 where
  pub address : ℕ
  pub topics : List ℕ

pub record CommittedTx : Type 0 where
  pub hash : ℕ
  pub from : ℕ
  pub to : ℕ
  pub logs : List EvmLog

pub record Block : Type 0 where
  pub number : ℕ
  pub timestamp : ℕ
  pub size : ℕ
  pub miner : ℕ
  pub hash : ℕ
  pub parent_hash : ℕ
  pub transactions_root : ℕ
  pub state_root : ℕ
  pub gas_used : ℕ
  pub transactions : List ℕ

pub record GasUsedInfo : Type 0 where
  pub used : ℕ
  pub refund : ℕ
  pub fee : ℕ

pub record Machine (c : Context) : Type 1 where
  -- `ethutils.DecodeTx`, and `Signer.Sender`, which depends on nothing but what the hash covers.
  pub decode_tx : List ℕ → Option Tx
  pub signer_sender : Tx → Option ℕ
  pub signer_sender-hash : (t u : Tx) → t.hash ≡ u.hash → signer_sender t ≡ signer_sender u
  pub cons_addr : ℕ → ℕ
  pub max_tx_gas_limit : ℕ
  pub check_nonce : c.World → ℕ → ℕ → Option c.Account
  pub deduct_tx_fee : c.World → ℕ → c.Account → ℕ → ℕ → Option c.World
  -- The engine, with the transactions that it keeps in `Engine`.
  pub Engine : Type 0
  pub collect_tx : Engine → Tx → Engine
  pub standby_q_len : Engine → ℕ
  pub prepare : Engine → c.World → ℕ → ℕ → Engine × c.World × List ℕ
  pub execute_txs : Engine → c.World → Block → Engine × c.World
  pub gas_used_info : Engine → GasUsedInfo
  pub committed_txs : Engine → List CommittedTx
  pub get_system_balance : c.World → ℕ
  pub sub_system_acc_balance : c.World → ℕ → Option c.World
  pub transfer_to_black_hole : c.World → ℕ → ℕ → c.World
  pub get_curr_block_basic_info : c.World → Option Block
  pub set_curr_block_basic_info : c.World → Block → c.World
  pub get_root_hash : c.World → ℕ
